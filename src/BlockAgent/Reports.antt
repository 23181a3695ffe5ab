-- ===== src/BlockAgent/Reports.antt =====
-- The reports of a block agent: their numbers, and their silence after `detach`.
use grafux_orchestrator.Prelude.{
  ℕ, zero, suc, String, ◌≡◌, refl, ◌∙◌, sym, ap, Bool, true, false, List, [], ◌∷◌, some,
}
use mathlib.Core.Bool.{false≢true}
use grafux_orchestrator.BlockAgent.Data.{
  Agent, agent_step, World, Event, interrupted, emitted, acted, read, asked, prompted, Session,
  Interrupt, quiet, stop, detach,
}
use grafux_orchestrator.BlockAgent.Rules.{settle, is_expensive, charge}
use grafux_orchestrator.BlockAgent.Dispatch.{attributed}
use grafux_orchestrator.BlockAgent.Loop.{run}
use grafux_orchestrator.BlockAgent.Permission.{charge_same}
use grafux_orchestrator.BlockAgent.Induction.{
  Withstands, IsQuery, settle-Unmoved, use_step, draw, state_of,
}
use grafux_orchestrator.BlockAgent.Induction.Rounds.{run-Keeps}

-- The numbers of the steps that were sent, the newest first.
abbrev pub numbers : List Event → List ℕ
numbers [] = []
numbers (emitted (agent_step block_id seq kind line tool) ∷ es) = seq ∷ numbers es
numbers (e ∷ es) = numbers es

abbrev pub countdown : ℕ → List ℕ
countdown zero = []
countdown (suc n) = suc n ∷ countdown n

abbrev pub IsNumbered : {W : Type 0} → Session W → Type 0
IsNumbered s = numbers s.trace ≡ countdown s.agent.seq

query-numbers :
    (event : Event) (es : List Event) → IsQuery event → numbers (event ∷ es) ≡ numbers es
query-numbers (read target direction port) es q = refl
query-numbers (asked block question) es q = refl
query-numbers (prompted messages declarations) es q = refl
query-numbers (emitted m) es q = elim q [ ]
query-numbers (acted x y) es q = elim q [ ]
query-numbers (interrupted i) es q = elim q [ ]

module _ {W : Type 0} (world : World W) where
  IsNumbered-Withstands : Withstands world IsNumbered
  IsNumbered-Withstands = record {
    write = λ f s same h. h ∙ ap countdown (sym same.seq);
    spend = λ s live left h. h;
    consult = λ messages declarations w s live left h.
        h ∙ ap countdown (sym (settle-Unmoved (world.interrupt w) (use_step s.agent)).seq);
    wait = λ event w s q h.
        query-numbers event s.trace q
        ∙ h
        ∙ ap countdown (sym (settle-Unmoved (world.interrupt w) s.agent).seq);
    tell_step = λ kind line tool w s live h.
        ap (λ ns. suc s.agent.seq ∷ ns) h
        ∙ ap countdown (sym (settle-Unmoved (world.interrupt w) (draw s.agent)).seq);
    tell_state =
        λ w s live h. h ∙ ap countdown (sym (settle-Unmoved (world.interrupt w) s.agent).seq);
    carry = λ call action w s allowed mapped h.
        let expensive = is_expensive s.agent call (some (attributed s.agent action)) in
        let charged_agent = charge call expensive s.agent in
        h
        ∙ ap countdown (sym (charge_same s.agent call expensive).3)
        ∙ ap countdown (sym (settle-Unmoved (world.interrupt w) charged_agent).seq);
  }

-- The steps that a loop sends are numbered 1, 2, 3, … with no gap and no repetition, over any run
-- that starts from such a numbering: `numbers` lists them from the newest.
pub run-IsNumbered :
    {W : Type 0} (world : World W) (instruction : String) (s : Session W)
    → IsNumbered s
    → IsNumbered (run world instruction s).1
run-IsNumbered world instruction s h =
    (run-Keeps world (IsNumbered-Withstands world) instruction).at s h

-- Another task has called `detach`.
abbrev pub was_cut : List Event → Bool
was_cut [] = false
was_cut (interrupted detach ∷ es) = true
was_cut (e ∷ es) = was_cut es

-- Each message was sent before any call of `detach`.
abbrev pub IsSilenced : List Event → Type 0
IsSilenced [] = Unit
IsSilenced (emitted message ∷ es) = (was_cut es ≡ false) × IsSilenced es
IsSilenced (e ∷ es) = IsSilenced es

pub record IsDiscreet {W : Type 0} (s : Session W) : Type 0 where
  pub silenced : IsSilenced s.trace
  pub heeded : was_cut s.trace ≡ true → s.agent.detached ≡ true

query-IsSilenced :
    (event : Event) (es : List Event)
    → IsQuery event
    → IsSilenced es
    → IsSilenced (event ∷ es) × (was_cut (event ∷ es) ≡ was_cut es)
query-IsSilenced (read target direction port) es q h = (h, refl)
query-IsSilenced (asked block question) es q h = (h, refl)
query-IsSilenced (prompted messages declarations) es q h = (h, refl)
query-IsSilenced (emitted m) es q h = elim q [ ]
query-IsSilenced (acted x y) es q h = elim q [ ]
query-IsSilenced (interrupted i) es q h = elim q [ ]

-- After an await the flag is set if it was, or if `detach` was called meanwhile.
settle_heeds :
    (i : Interrupt) (a : Agent) (es : List Event)
    → (was_cut es ≡ true → a.detached ≡ true)
    → was_cut (interrupted i ∷ es) ≡ true
    → (settle i a).detached ≡ true
unfolding settle
settle_heeds quiet a es h e = h e
settle_heeds stop a es h e = h e
settle_heeds detach a es h e = refl

IsSilenced-interrupted :
    (i : Interrupt) (es : List Event) → IsSilenced es → IsSilenced (interrupted i ∷ es)
IsSilenced-interrupted i es h = h

live-not_cut :
    (cut detached : Bool) → (cut ≡ true → detached ≡ true) → detached ≡ false → cut ≡ false
live-not_cut false d h e = refl
live-not_cut true d h e = absurd (false≢true (sym e ∙ h refl))

module _ {W : Type 0} (world : World W) where
  IsDiscreet-Withstands : Withstands world IsDiscreet
  IsDiscreet-Withstands = record {
    write =
        λ f s same h. record { silenced = h.silenced; heeded = λ e. same.detached ∙ h.heeded e };
    spend = λ s live left h. record { silenced = h.silenced; heeded = h.heeded };
    consult = λ messages declarations w s live left h. record {
      silenced = h.silenced;
      heeded =
          settle_heeds (world.interrupt w) (use_step s.agent)
            (prompted messages declarations ∷ s.trace) h.heeded;
    };
    wait = λ event w s q h.
        let (silenced, same) = query-IsSilenced event s.trace q h.silenced in
        record {
          silenced = silenced;
          heeded =
              settle_heeds (world.interrupt w) s.agent (event ∷ s.trace)
                (λ e. h.heeded (sym same ∙ e));
        };
    tell_step = λ kind line tool w s live h. record {
      silenced = (live-not_cut (was_cut s.trace) s.agent.detached h.heeded live, h.silenced);
      heeded =
          settle_heeds (world.interrupt w) (draw s.agent)
            (emitted (agent_step s.agent.block_id (suc s.agent.seq) kind line tool) ∷ s.trace)
            h.heeded;
    };
    tell_state = λ w s live h. record {
      silenced = (live-not_cut (was_cut s.trace) s.agent.detached h.heeded live, h.silenced);
      heeded =
          settle_heeds (world.interrupt w) s.agent (emitted (state_of s.agent) ∷ s.trace) h.heeded;
    };
    carry = λ call action w s allowed mapped h.
        let action' = attributed s.agent action in
        let expensive = is_expensive s.agent call (some action') in
        record {
          silenced = h.silenced;
          heeded =
              settle_heeds (world.interrupt w) (charge call expensive s.agent)
                (acted action' expensive ∷ s.trace)
                (λ e. (charge_same s.agent call expensive).2 ∙ h.heeded e);
        };
  }

-- Once another task has called `detach`, at whatever await of the run that was, the loop sends no
-- further message: every message of the trace stands before the first `detach`.
pub run-IsDiscreet :
    {W : Type 0} (world : World W) (instruction : String) (s : Session W)
    → IsDiscreet s
    → IsDiscreet (run world instruction s).1
run-IsDiscreet world instruction s h =
    (run-Keeps world (IsDiscreet-Withstands world) instruction).at s h
