-- ===== src/BlockAgent/Pairing.antt =====
-- The prompts that a run of app/modules/session/block_agent.py sends, as transcripts: each turn
-- with tool calls is followed by the results of its calls.
pub mod Rounds
pub mod Prompts
pub mod Runs
use grafux_orchestrator.Prelude.{
  ℕ, zero, suc, String, ◌≡◌, refl, sym, ap, ◌∙◌, Bool, true, false, not, Option, none, some, List,
  [], ◌∷◌, ◌++◌, ◌==◌, arith, Bool-cases, inl, inr, if◌then◌else◌,
}
use mathlib.Core.Path.{subst}
use mathlib.Core.List.{append_assoc, append-nil}
use grafux_orchestrator.Python.{text, Fields, Outcome, ok, raised, cancelled}
use grafux_orchestrator.BlockAgent.Data.{
  ToolCall, ToolTurn, Entry, user, assistant, tool, system, Agent, World, Message, Event,
  interrupted, emitted, acted, read, asked, prompted, Session, Interrupt,
}
use grafux_orchestrator.Exec.{
  Exec, reads, Keeps, keeps_rules, Keeps-modify, if_at, gets, modify, skip, pure, ◌>>=◌, ◌>>◌,
  continue,
}
use grafux_orchestrator.Exec.Outcomes.{Yields, Yields-pure, Yields-if, Yields-then, Yields-bind}
use grafux_orchestrator.BlockAgent.Rules.{settle, charge}
use grafux_orchestrator.BlockAgent.Dispatch.{
  dispatch_ask, dispatch_read, observed, denied, carry_out, dispatch_action, dispatch,
}
use grafux_orchestrator.BlockAgent.Seam.{
  on_agent, perform, emit, act, read_port, ask, call_llm_tools, send_step, step, report_state,
}
use grafux_orchestrator.BlockAgent.Induction.{noted, settle-Unmoved}

-- A transcript in which the calls `waiting` are answered first, in order, and then each turn has
-- calls that are answered in order before anything else is said. No entry is a `system` entry.
abbrev pub IsPairedAfter : List ToolCall → List Entry → Type 0
IsPairedAfter [] [] = Unit
IsPairedAfter [] (user content ∷ es) = IsPairedAfter [] es
IsPairedAfter [] (assistant content (call ∷ calls) raw ∷ es) = IsPairedAfter (call ∷ calls) es
IsPairedAfter (call ∷ calls) (tool id name content is_error ∷ es) =
    (id ≡ call.id) × IsPairedAfter calls es
IsPairedAfter calls es = ⊥

abbrev pub IsPaired : List Entry → Type 0
IsPaired es = IsPairedAfter [] es

-- What the providers accept: a paired transcript, with at most one `system` entry, at its end.
pub data IsAcceptable : List Entry → Type 0 where
  bare : (es : List Entry) → IsPaired es → IsAcceptable es
  with_context :
      (es : List Entry) (content : String) → IsPaired es → IsAcceptable (es ++ system content ∷ [])

abbrev pub PromptsAcceptable : List Event → Type 0
PromptsAcceptable [] = Unit
PromptsAcceptable (prompted messages declarations ∷ es) =
    IsAcceptable messages × PromptsAcceptable es
PromptsAcceptable (e ∷ es) = PromptsAcceptable es

-- The transcript is `messages`, and the prompts so far were acceptable.
pub record Steady {W : Type 0} (messages : List Entry) (s : Session W) : Type 0 where
  pub kept : s.agent.messages ≡ messages
  pub sound : PromptsAcceptable s.trace

abbrev pub IsSilent : Event → Type 0
IsSilent (prompted messages declarations) = ⊥
IsSilent (interrupted i) = ⊥
IsSilent _ = Unit

silent-PromptsAcceptable :
    (event : Event) (es : List Event)
    → IsSilent event
    → PromptsAcceptable es
    → PromptsAcceptable (event ∷ es)
silent-PromptsAcceptable (read target direction port) es q h = h
silent-PromptsAcceptable (asked block question) es q h = h
silent-PromptsAcceptable (prompted messages declarations) es q h = absurd q
silent-PromptsAcceptable (emitted m) es q h = h
silent-PromptsAcceptable (acted x y) es q h = h
silent-PromptsAcceptable (interrupted i) es q h = absurd q

-- An entry that answers the call.
abbrev pub Answers : ToolCall → Entry → Type 0
Answers call (tool id name content is_error) = id ≡ call.id
Answers call e = ⊥

module _ {W : Type 0} (world : World W) where
  pub noted-Steady :
      (messages : List Entry) (event : Event) (w : W) (s : Session W)
      → IsSilent event
      → Steady messages s
      → Steady messages (noted world event w s)
  noted-Steady messages event w s q h = record {
    kept = (settle-Unmoved (world.interrupt w) s.agent).messages ∙ h.kept;
    sound = silent-PromptsAcceptable event s.trace q h.sound;
  }

  module _ (messages : List Entry) where
    pub write-Keeps :
        (f : Agent → Agent)
        → ((a : Agent) → (f a).messages ≡ a.messages)
        → Keeps (Steady messages) (modify {S = Session W} (on_agent f))
    write-Keeps f same =
        Keeps-modify (on_agent f) (λ s h. record { kept = same s.agent ∙ h.kept; sound = h.sound })

    pub emit-Keeps : (message : Message) → Keeps (Steady messages) (emit world message)
    unfolding emit
    emit-Keeps message = record { at = λ s h. noted-Steady messages _ _ s tt h }

    act-Keeps :
        (action : Fields) (expensive : Bool) → Keeps (Steady messages) (act world action expensive)
    unfolding act
    act-Keeps action expensive = record { at = λ s h. noted-Steady messages _ _ s tt h }

    read_port-Keeps :
        (target direction port : String)
        → Keeps (Steady messages) (read_port world target direction port)
    unfolding read_port
    read_port-Keeps target direction port = record { at = λ s h. noted-Steady messages _ _ s tt h }

    ask-Keeps : (block question : String) → Keeps (Steady messages) (ask world block question)
    unfolding ask
    ask-Keeps block question = record { at = λ s h. noted-Steady messages _ _ s tt h }

    ruleset paired_rules =
        (keeps_rules, write-Keeps, emit-Keeps, act-Keeps, read_port-Keeps, ask-Keeps)

    pub step-Keeps :
        (kind line : String) (call : Option (String × Fields))
        → Keeps (Steady messages) (step world kind line call)
    unfolding step send_step
    step-Keeps kind line call = search (paired_rules, arith)

    denied-Keeps :
        (call : ToolCall) (denial : String) → Keeps (Steady messages) (denied world call denial)
    unfolding denied
    denied-Keeps call denial = search (paired_rules, step-Keeps)

    observed-Keeps :
        (call : ToolCall) (observation : Fields)
        → Keeps (Steady messages) (observed world call observation)
    unfolding observed
    observed-Keeps call observation = search (paired_rules, step-Keeps)

    charge_messages :
        (call : ToolCall) (expensive : Bool) (a : Agent)
        → (charge call expensive a).messages ≡ a.messages
    unfolding charge
    charge_messages call expensive a = ground arith

    carry_out-Keeps :
        (call : ToolCall) (action : Option Fields)
        → Keeps (Steady messages) (carry_out world call action)
    unfolding carry_out
    carry_out-Keeps call none = search paired_rules
    carry_out-Keeps call (some action) = search (paired_rules, observed-Keeps, charge_messages)

    dispatch_ask-Keeps : (call : ToolCall) → Keeps (Steady messages) (dispatch_ask world call)
    unfolding dispatch_ask
    dispatch_ask-Keeps call = search (paired_rules, step-Keeps)

    dispatch_read-Keeps : (call : ToolCall) → Keeps (Steady messages) (dispatch_read world call)
    unfolding dispatch_read
    dispatch_read-Keeps call = search (paired_rules, step-Keeps)

    dispatch_action-Keeps : (call : ToolCall) → Keeps (Steady messages) (dispatch_action world call)
    unfolding dispatch_action
    dispatch_action-Keeps call = search (paired_rules, denied-Keeps, carry_out-Keeps)

    pub dispatch-Keeps : (call : ToolCall) → Keeps (Steady messages) (dispatch world call)
    unfolding dispatch
    dispatch-Keeps call =
        search
          (paired_rules, step-Keeps, dispatch_ask-Keeps, dispatch_read-Keeps, dispatch_action-Keeps)
