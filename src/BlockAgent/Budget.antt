-- ===== src/BlockAgent/Budget.antt =====
-- What a run of the block agent may use: steps, and runs of blocks.
use grafux_orchestrator.Prelude.{
  ℕ, ◌+◌, ◌≤◌, max, String, ◌≡◌, refl, ap, ◌∙◌, Bool, false, some, List, [], ◌∷◌, arith, one_of,
  leb, Bool-cases, inl, inr, if◌then◌else◌,
}
use grafux_orchestrator.Python.{text, Fields, get}
use grafux_orchestrator.BlockAgent.Policy.{AgentPolicy}
use grafux_orchestrator.BlockAgent.Data.{
  ToolCall, Entry, Agent, World, Event, interrupted, emitted, acted, read, asked, prompted, Session,
}
use grafux_orchestrator.BlockAgent.Rules.{charge, run_tools, is_expensive}
use grafux_orchestrator.BlockAgent.Seam.{on_agent}
use grafux_orchestrator.BlockAgent.Dispatch.{attributed}
use grafux_orchestrator.BlockAgent.Loop.{run}
use grafux_orchestrator.BlockAgent.Permission.{
  kind_of, Permitted, deny-Permitted, attributed_type, charge_same,
}
use grafux_orchestrator.BlockAgent.Induction.{
  Withstands, IsQuery, settle-Unmoved, use_step, draw, noted, charged,
}
use grafux_orchestrator.BlockAgent.Induction.Rounds.{run-Keeps}

abbrev pub starts_run : Event → ℕ
starts_run (acted action expensive) =
    if one_of (kind_of (get "type" action)) run_tools then 1 else 0
starts_run _ = 0

-- The runs of blocks that the loop has asked the canvas for.
abbrev pub runs_started : List Event → ℕ
runs_started [] = 0
runs_started (e ∷ es) = starts_run e + runs_started es

abbrev pub offers_tools : Event → ℕ
offers_tools (prompted messages (d ∷ ds)) = 1
offers_tools _ = 0

-- The calls of the model that offer it tools.
abbrev pub turns_taken : List Event → ℕ
turns_taken [] = 0
turns_taken (e ∷ es) = offers_tools e + turns_taken es

-- The session keeps to the policy `p`, and its trace agrees with its counters.
pub record IsFrugal {W : Type 0} (p : AgentPolicy) (s : Session W) : Type 0 where
  pub policy : s.agent.policy ≡ p
  pub steps : s.agent.steps_used ≤ p.max_steps
  pub runs : s.agent.runs_used ≤ p.max_block_runs
  pub turns : turns_taken s.trace ≤ s.agent.steps_used
  pub started : runs_started s.trace ≤ s.agent.runs_used

query-counts : (event : Event) → IsQuery event → (starts_run event ≡ 0) × (offers_tools event ≡ 0)
query-counts (read target direction port) q = (refl, refl)
query-counts (asked block question) q = (refl, refl)
query-counts (prompted messages declarations) q = rw q (refl, refl)
query-counts (interrupted i) q = elim q [ ]
query-counts (emitted m) q = elim q [ ]
query-counts (acted x y) q = elim q [ ]

offers_tools-le :
    (messages : List Entry) (declarations : List String)
    → offers_tools (prompted messages declarations) ≤ 1
offers_tools-le messages [] = omega arith
offers_tools-le messages (d ∷ ds) = omega arith

-- A run is counted when it is charged, and it is charged only if one was left.
charge_run :
    (a : Agent) (call : ToolCall) (action : Fields) (expensive : Bool)
    → Permitted a call
    → get "type" action ≡ some (text call.name)
    → (starts_run (acted action expensive) + a.runs_used ≡ (charge call expensive a).runs_used)
      × ((charge call expensive a).runs_used ≤ max a.runs_used a.policy.max_block_runs)
unfolding charge
charge_run a call action expensive allowed typed = elim (Bool-cases (one_of call.name run_tools)) [
  | inl runs ↦ let left = allowed.run_left runs in rw (typed, runs) (omega arith, ground arith)
  | inr other ↦ rw (typed, other) (omega arith, omega arith)
]

module _ {W : Type 0} (world : World W) (p : AgentPolicy) where
  IsFrugal-consult :
      (messages : List Entry) (declarations : List String) (w : W) (s : Session W)
      → leb s.agent.policy.max_steps s.agent.steps_used ≡ false
      → IsFrugal p s
      → IsFrugal p (noted world (prompted messages declarations) w (on_agent use_step s))
  IsFrugal-consult messages declarations w s left h =
      let u = settle-Unmoved (world.interrupt w) (use_step s.agent) in
      let max_steps = ap (λ (q : AgentPolicy). q.max_steps) h.policy in
      let one = offers_tools-le messages declarations in
      record {
        policy = u.policy ∙ h.policy;
        steps = ground arith;
        runs = ground arith;
        turns = ground arith;
        started = ground arith;
      }

  IsFrugal-carry :
      (call : ToolCall) (action : Fields) (w : W) (s : Session W)
      → Permitted s.agent call
      → get "type" action ≡ some (text call.name)
      → IsFrugal p s
      → IsFrugal p (charged world call action w s)
  IsFrugal-carry call action w s allowed typed h =
      let expensive = is_expensive s.agent call (some action) in
      let a = charge call expensive s.agent in
      let u = settle-Unmoved (world.interrupt w) a in
      let (policy, steps, _, _) = charge_same s.agent call expensive in
      let (counted, bounded) = charge_run s.agent call action expensive allowed typed in
      let max_runs = ap (λ (q : AgentPolicy). q.max_block_runs) h.policy in
      record {
        policy = u.policy ∙ policy ∙ h.policy;
        steps = omega (arith, u.steps_used, steps, h.steps);
        runs = omega (arith, u.runs_used, bounded, max_runs, h.runs);
        turns = omega (arith, u.steps_used, steps, h.turns);
        started = omega (arith, u.runs_used, counted, h.started);
      }

  IsFrugal-Withstands : Withstands world (IsFrugal p)
  IsFrugal-Withstands = record {
    write = λ f s same h. ground arith;
    spend = λ s live left h. ground arith;
    consult =
        λ messages declarations w s live left h. IsFrugal-consult messages declarations w s left h;
    wait = λ event w s q h.
        let u = settle-Unmoved (world.interrupt w) s.agent in
        let n = query-counts event q in ground arith;
    tell_step = λ kind line tool w s live h.
        let u = settle-Unmoved (world.interrupt w) (draw s.agent) in ground arith;
    tell_state = λ w s live h. let u = settle-Unmoved (world.interrupt w) s.agent in ground arith;
    carry = λ call action w s allowed mapped h.
        IsFrugal-carry call (attributed s.agent action) w s (deny-Permitted s.agent call allowed)
          (attributed_type s.agent call action mapped) h;
  }

-- A run of the agent, from within its budget, never uses more steps or starts more runs of blocks
-- than its policy allows, whatever the model, the canvas and the user answer, and however it ends:
-- the model is offered tools at most `max_steps` times, and the canvas is asked for at most
-- `max_block_runs` runs, counted on the requests that were really made.
pub run-IsFrugal :
    {W : Type 0} (world : World W) (instruction : String) (p : AgentPolicy) (s : Session W)
    → IsFrugal p s
    → IsFrugal p (run world instruction s).1
run-IsFrugal world instruction p s h =
    (run-Keeps world (IsFrugal-Withstands world p) instruction).at s h
