-- ===== src/BlockAgent/Induction.antt =====
-- One induction principle for the whole agent loop: an invariant of its sessions is kept by `run`
-- if it withstands the few kinds of change that the code makes.
pub mod Rounds
use grafux_orchestrator.Prelude.{
  ℕ, zero, suc, String, ◌≡◌, refl, Bool, true, false, not, Option, none, some, List, [], ◌∷◌, ◌++◌,
  ◌==◌, arith, Bool-cases, inl, inr, if◌then◌else◌, leb, eq_iff,
}
use grafux_orchestrator.Python.{text, Fields, end, field, Outcome, ok, raised, cancelled}
use grafux_orchestrator.CanvasTools.{function_call_to_action}
use grafux_orchestrator.BlockAgent.Data.{
  ToolCall, ToolTurn, Entry, Message, agent_step, agent_state, Agent, World, Event, interrupted,
  emitted, acted, read, asked, prompted, Session, Interrupt, quiet, stop, detach,
}
use grafux_orchestrator.Exec.{
  reads, Exec, Keeps, keeps_rules, Keeps-bind, Keeps-modify, Keeps-if, Keeps-reads, if_at, lift_at,
  bind_at, gets, modify, skip, pure, ◌>>=◌, ◌>>◌,
}
use grafux_orchestrator.BlockAgent.Rules.{is_expensive, deny, charge, settle}
use grafux_orchestrator.BlockAgent.Dispatch.{
  attributed, dispatch_ask, dispatch_read, observed, denied, carry_out, dispatch_action, dispatch,
}
use grafux_orchestrator.BlockAgent.Seam.{
  on_agent, perform, emit, act, read_port, ask, call_llm_tools, send_step, step, report_state,
}

-- A change that leaves alone who the agent is, what it may do, and what it has used.
pub record SameCore (a b : Agent) : Type 0 where
  pub block_id : b.block_id ≡ a.block_id
  pub block_name : b.block_name ≡ a.block_name
  pub block_type : b.block_type ≡ a.block_type
  pub policy : b.policy ≡ a.policy
  pub steps_used : b.steps_used ≡ a.steps_used
  pub runs_used : b.runs_used ≡ a.runs_used
  pub expensive_runs_used : b.expensive_runs_used ≡ a.expensive_runs_used
  pub seq : b.seq ≡ a.seq
  pub stopping : b.stopping ≡ a.stopping
  pub detached : b.detached ≡ a.detached

-- What other tasks may do to the agent: `stop` and `detach` leave all but two flags alone, and never
-- take one back.
pub record Unmoved (a b : Agent) : Type 0 where
  pub block_id : b.block_id ≡ a.block_id
  pub block_name : b.block_name ≡ a.block_name
  pub block_type : b.block_type ≡ a.block_type
  pub policy : b.policy ≡ a.policy
  pub steps_used : b.steps_used ≡ a.steps_used
  pub runs_used : b.runs_used ≡ a.runs_used
  pub expensive_runs_used : b.expensive_runs_used ≡ a.expensive_runs_used
  pub seq : b.seq ≡ a.seq
  pub messages : b.messages ≡ a.messages
  pub state : b.state ≡ a.state
  pub cut : a.detached ≡ true → b.detached ≡ true

pub settle-Unmoved : (i : Interrupt) (a : Agent) → Unmoved a (settle i a)
unfolding settle
settle-Unmoved quiet a = ground arith
settle-Unmoved stop a = ground arith
settle-Unmoved detach a = ground arith

abbrev pub draw : Agent → Agent
draw a = record a { seq = suc a.seq }

abbrev pub state_of : Agent → Message
state_of a =
    agent_state a.block_id a.state a.summary a.goal a.goal_met a.steps_used a.policy.max_steps

-- The requests that neither report nor act, nor offer tools.
abbrev pub IsQuery : Event → Type 0
IsQuery (emitted message) = ⊥
IsQuery (acted action expensive) = ⊥
IsQuery (prompted messages declarations) = declarations ≡ []
IsQuery (interrupted i) = ⊥
IsQuery _ = Unit

abbrev pub use_step : Agent → Agent
use_step a = record a { steps_used = suc a.steps_used }

module _ {W : Type 0} (world : World W) where
  -- The session after an await that left the world in the state `w`.
  abbrev pub noted : Event → W → Session W → Session W
  noted event w s = record {
    agent = settle (world.interrupt w) s.agent;
    world = w;
    trace = interrupted (world.interrupt w) ∷ event ∷ s.trace;
  }

  -- The session after a permitted action was charged and carried out.
  abbrev pub charged : ToolCall → Fields → W → Session W → Session W
  charged call action w s =
      let expensive = is_expensive s.agent call (some action) in
      noted (acted action expensive) w (on_agent (charge call expensive) s)

  -- What an invariant has to withstand.
  pub record Withstands (P : Session W → Type 0) : Type 0 where
    -- Fields change that are no part of the core.
    pub write :
        (f : Agent → Agent) (s : Session W) → SameCore s.agent (f s.agent) → P s → P (on_agent f s)
    -- A step of the budget is used up.
    pub spend :
        (s : Session W)
        → s.agent.stopping ≡ false
        → leb s.agent.policy.max_steps s.agent.steps_used ≡ false
        → P s
        → P (on_agent use_step s)
    -- A step of the budget is used up, and the model is asked with the tools at hand.
    pub consult :
        (messages : List Entry) (declarations : List String) (w : W) (s : Session W)
        → s.agent.stopping ≡ false
        → leb s.agent.policy.max_steps s.agent.steps_used ≡ false
        → P s
        → P (noted (prompted messages declarations) w (on_agent use_step s))
    -- The loop waits for the user, for a port's content, or for the model's summary.
    pub wait : (event : Event) (w : W) (s : Session W) → IsQuery event → P s → P (noted event w s)
    -- A step or the state is reported.
    pub tell_step :
        (kind line : String) (tool : Option (String × Fields)) (w : W) (s : Session W)
        → s.agent.detached ≡ false
        → P s
        → P (
            noted
              (emitted (agent_step s.agent.block_id (suc s.agent.seq) kind line tool))
              w
              (on_agent draw s))
    pub tell_state :
        (w : W) (s : Session W)
        → s.agent.detached ≡ false
        → P s
        → P (noted (emitted (state_of s.agent)) w s)
    -- A permitted action is charged and carried out.
    pub carry :
        (call : ToolCall) (action : Fields) (w : W) (s : Session W)
        → deny s.agent call ≡ ""
        → function_call_to_action call.name call.arguments
            (field "name" (text s.agent.block_name) end ∷ [])
          ≡ ok (some action)
        → P s
        → P (charged call (attributed s.agent action) w s)

blank : (s : String) → not (s == "") ≡ false → s ≡ ""
blank s h = ground (arith, eq_iff s "")

module _ {W : Type 0} (world : World W) {P : Session W → Type 0} (rules : Withstands world P) where
  open rules use {write, wait, tell_step, tell_state, carry}

  pub step-Keeps :
      (kind line : String) (tool : Option (String × Fields)) → Keeps P (step world kind line tool)
  unfolding step modify reads emit
  step-Keeps kind line tool = record {
    at = λ s h.
        if_at P s.agent.detached _ _ s (λ cut. h) (λ live. tell_step kind line tool _ s live h);
  }

  pub report_state-Keeps : Keeps P (report_state world)
  unfolding report_state reads
  report_state-Keeps = record {
    at = λ s h. if_at P s.agent.detached _ _ s (λ cut. h) (λ live. tell_state _ s live h);
  }

  pub read_port-Keeps :
      (target direction port : String) → Keeps P (read_port world target direction port)
  unfolding read_port
  read_port-Keeps target direction port = record { at = λ s h. wait _ _ s tt h }

  pub ask-Keeps : (block_id question : String) → Keeps P (ask world block_id question)
  unfolding ask
  ask-Keeps block_id question = record { at = λ s h. wait _ _ s tt h }

  pub call_llm_tools-Keeps :
      (system : String) (messages : List Entry) (model : Option String)
      → Keeps P (call_llm_tools world system messages [] model)
  unfolding call_llm_tools
  call_llm_tools-Keeps system messages model = record { at = λ s h. wait _ _ s refl h }

  -- A change that is no part of the core, as one of the actions of a `do` block.
  pub write-Keeps :
      (f : Agent → Agent) → ((a : Agent) → SameCore a (f a)) → Keeps P (modify (on_agent f))
  write-Keeps f same = Keeps-modify (on_agent f) (λ s h. write f s (same s.agent) h)

  pub ruleset seam_rules = (
    keeps_rules, step-Keeps, report_state-Keeps, read_port-Keeps, ask-Keeps, call_llm_tools-Keeps,
    write-Keeps,
  )

  pub dispatch_ask-Keeps : (call : ToolCall) → Keeps P (dispatch_ask world call)
  unfolding dispatch_ask
  dispatch_ask-Keeps call = search seam_rules

  pub dispatch_read-Keeps : (call : ToolCall) → Keeps P (dispatch_read world call)
  unfolding dispatch_read
  dispatch_read-Keeps call = search seam_rules

  pub observed-Keeps :
      (call : ToolCall) (observation : Fields) → Keeps P (observed world call observation)
  unfolding observed
  observed-Keeps call observation = search seam_rules

  pub denied-Keeps : (call : ToolCall) (denial : String) → Keeps P (denied world call denial)
  unfolding denied
  denied-Keeps call denial = search seam_rules

  pub carry_out-Keeps :
      (call : ToolCall) (action : Option Fields) (s : Session W)
      → deny s.agent call ≡ ""
      → function_call_to_action call.name call.arguments
          (field "name" (text s.agent.block_name) end ∷ [])
        ≡ ok action
      → P s
      → P (carry_out world call action s).1
  unfolding carry_out modify act reads
  carry_out-Keeps call none s allowed mapped h = h
  carry_out-Keeps call (some action) s allowed mapped h =
      bind_at P (act world _ _) (observed world call) _ (carry call action _ s allowed mapped h)
        (observed-Keeps call)

  pub dispatch_action-Keeps : (call : ToolCall) → Keeps P (dispatch_action world call)
  unfolding dispatch_action
  dispatch_action-Keeps call = record {
    at = λ s h.
        if_at P (not (deny s.agent call == "")) _ _ s
          (λ refused. (denied-Keeps call (deny s.agent call)).at s h)
          (λ allowed.
            lift_at P _ (carry_out world call) s h
              (λ action mapped. carry_out-Keeps call action s (blank _ allowed) mapped h));
  }

  pub dispatch-Keeps : (call : ToolCall) → Keeps P (dispatch world call)
  unfolding dispatch
  dispatch-Keeps call =
      search (seam_rules, dispatch_ask-Keeps, dispatch_read-Keeps, dispatch_action-Keeps)
