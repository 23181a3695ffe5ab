-- ===== src/BlockAgent/Pairing/Rounds.antt =====
-- The pairing of calls and results, carried from the tool dispatch to `run` of
-- app/modules/session/block_agent.py.
use grafux_orchestrator.Prelude.{
  String, ◌≡◌, refl, ap, Bool, true, false, Option, none, some, List, [], ◌∷◌, ◌++◌, ◌==◌, arith,
  if◌then◌else◌,
}
use mathlib.Core.Bool.{false≢true}
use mathlib.Core.List.{append_assoc, append-nil}
use grafux_orchestrator.Python.{Fields, Outcome, ok, raised, cancelled}
use grafux_orchestrator.BlockAgent.Data.{
  ToolCall, ToolTurn, Entry, user, assistant, tool, system, State, World, Session,
}
use grafux_orchestrator.Exec.{
  Exec, reads, whole_if, Keeps, Keeps-if, Keeps-reads, keeps_rules, modify, skip, pure, ◌>>=◌, ◌>>◌,
  continue,
}
use grafux_orchestrator.Exec.Outcomes.{Yields, Yields-pure, Yields-if, Yields-then}
use grafux_orchestrator.BlockAgent.Dispatch.{
  dispatch_ask, dispatch_read, observed, denied, carry_out, dispatch_action, dispatch,
}
use grafux_orchestrator.BlockAgent.Seam.{on_agent, step}
use grafux_orchestrator.BlockAgent.Loop.{
  finish, conclude, run_calls, use_tools, announce_model, take_turn,
}
use grafux_orchestrator.BlockAgent.Pairing.{
  IsPairedAfter, IsPaired, PromptsAcceptable, Steady, Answers, write-Keeps, step-Keeps,
  dispatch-Keeps,
}

module _ {W : Type 0} (world : World W) where
  ruleset yields_rules = (Yields-pure, Yields-if, Yields-then)

  dispatch_ask-Yields : (call : ToolCall) → Yields (Answers call) (dispatch_ask world call)
  unfolding dispatch_ask
  dispatch_ask-Yields call = search yields_rules

  dispatch_read-Yields : (call : ToolCall) → Yields (Answers call) (dispatch_read world call)
  unfolding dispatch_read
  dispatch_read-Yields call = search yields_rules

  observed-Yields :
      (call : ToolCall) (observation : Fields)
      → Yields (Answers call) (observed world call observation)
  unfolding observed
  observed-Yields call observation = search yields_rules

  denied-Yields :
      (call : ToolCall) (denial : String) → Yields (Answers call) (denied world call denial)
  unfolding denied
  denied-Yields call denial = search yields_rules

  carry_out-Yields :
      (call : ToolCall) (action : Option Fields)
      → Yields (Answers call) (carry_out world call action)
  unfolding carry_out
  carry_out-Yields call none = search yields_rules
  carry_out-Yields call (some action) = search (yields_rules, observed-Yields)

  dispatch_action-Yields : (call : ToolCall) → Yields (Answers call) (dispatch_action world call)
  unfolding dispatch_action
  dispatch_action-Yields call = search (yields_rules, denied-Yields, carry_out-Yields)

  dispatch-Yields : (call : ToolCall) → Yields (Answers call) (dispatch world call)
  unfolding dispatch
  dispatch-Yields call =
      search (yields_rules, dispatch_ask-Yields, dispatch_read-Yields, dispatch_action-Yields)

-- The transcript is paired, and the prompts so far were acceptable.
pub record Ready {W : Type 0} (s : Session W) : Type 0 where
  pub paired : IsPaired s.agent.messages
  pub sound : PromptsAcceptable s.trace

-- A round that goes on leaves the session ready; in any other case the prompts were acceptable.
abbrev pub Ends : {W : Type 0} → Outcome Bool × Session W → Type 0
Ends (ok false, s) = Ready s
Ends (ok true, s) = PromptsAcceptable s.trace
Ends (raised e, s) = PromptsAcceptable s.trace
Ends (cancelled, s) = PromptsAcceptable s.trace

module _ {W A : Type 0} (P : Session W → Type 0) (Q : A → Type 0) where
  Ends-continue :
      (r : Outcome A) (rest : A → Exec (Session W) Bool) (t : Session W)
      → P t
      → ((u : Session W) → P u → PromptsAcceptable u.trace)
      → ((a : A) → r ≡ ok a → Q a)
      → ((a : A) (u : Session W) → Q a → P u → Ends (rest a u))
      → Ends (continue r rest t)
  unfolding continue
  Ends-continue (ok a) rest t p sound holds go = go a t (holds a refl) p
  Ends-continue (raised e) rest t p sound holds go = sound t p
  Ends-continue cancelled rest t p sound holds go = sound t p

  pub Ends-bind :
      (action : Exec (Session W) A) (rest : A → Exec (Session W) Bool) (s : Session W)
      → P (action s).1
      → Yields Q action
      → ((u : Session W) → P u → PromptsAcceptable u.trace)
      → ((a : A) (u : Session W) → Q a → P u → Ends (rest a u))
      → Ends ((action >>= rest) s)
  unfolding ◌>>=◌
  Ends-bind action rest s p holds sound go =
      Ends-continue (action s).0 rest (action s).1 p sound (holds.at s) go

module _ {W : Type 0} where
  ended :
      (r : Outcome Bool) (t : Session W)
      → PromptsAcceptable t.trace
      → ((b : Bool) → r ≡ ok b → b ≡ true)
      → Ends (r, t)
  ended (ok true) t sound only = sound
  ended (ok false) t sound only = absurd (false≢true (only false refl))
  ended (raised e) t sound only = sound
  ended cancelled t sound only = sound

  -- An action that never lets the run go on.
  pub over :
      (action : Exec (Session W) Bool) (s : Session W)
      → PromptsAcceptable (action s).1.trace
      → Yields (λ b. b ≡ true) action
      → Ends (action s)
  over action s sound only = ended (action s).0 (action s).1 sound (only.at s)

  pub over_steadily :
      (messages : List Entry) (action : Exec (Session W) Bool) (s : Session W)
      → Steady messages s
      → Keeps (Steady messages) action
      → Yields (λ b. b ≡ true) action
      → Ends (action s)
  over_steadily messages action s h keeps only = over action s (keeps.at s h).sound only

-- The same where it does not matter what is returned.
module _ {W A : Type 0} (messages : List Entry) where
  pub Ends-then :
      (action : Exec (Session W) A) (rest : A → Exec (Session W) Bool) (s : Session W)
      → Steady messages (action s).1
      → ((a : A) (u : Session W) → Steady messages u → Ends (rest a u))
      → Ends ((action >>= rest) s)
  Ends-then action rest s h go =
      Ends-bind (Steady messages) (λ _. Unit {0}) action rest s h (record { at = λ t a e. tt })
        (λ u held. held.sound) (λ a u _. go a u)

pub IsPairedAfter-append :
    (waiting : List ToolCall) (es fs : List Entry)
    → IsPairedAfter waiting es
    → IsPaired fs
    → IsPairedAfter waiting (es ++ fs)
IsPairedAfter-append [] [] fs h k = k
IsPairedAfter-append [] (user content ∷ es) fs h k = IsPairedAfter-append [] es fs h k
IsPairedAfter-append [] (assistant content (call ∷ calls) raw ∷ es) fs h k =
    IsPairedAfter-append (call ∷ calls) es fs h k
IsPairedAfter-append [] (assistant content [] raw ∷ es) fs h k = absurd h
IsPairedAfter-append [] (system content ∷ es) fs h k = absurd h
IsPairedAfter-append [] (tool id name content is_error ∷ es) fs h k = absurd h
IsPairedAfter-append (call ∷ calls) (tool id name content is_error ∷ es) fs h k =
    (h.0, IsPairedAfter-append calls es fs h.1 k)
IsPairedAfter-append (call ∷ calls) [] fs h k = absurd h
IsPairedAfter-append (call ∷ calls) (user content ∷ es) fs h k = absurd h
IsPairedAfter-append (call ∷ calls) (system content ∷ es) fs h k = absurd h
IsPairedAfter-append (call ∷ calls) (assistant content more raw ∷ es) fs h k = absurd h

answered_first :
    (call : ToolCall) (calls : List ToolCall) (e : Entry) (rest : List Entry)
    → Answers call e
    → IsPairedAfter calls rest
    → IsPairedAfter (call ∷ calls) (e ∷ rest)
answered_first call calls (tool id name content is_error) rest a h = (a, h)
answered_first call calls (user content) rest a h = absurd a
answered_first call calls (system content) rest a h = absurd a
answered_first call calls (assistant content more raw) rest a h = absurd a

module _ {W : Type 0} (world : World W) where
  finish-Keeps :
      (messages : List Entry) (call : ToolCall) → Keeps (Steady messages) (finish world call)
  unfolding finish conclude
  finish-Keeps messages call = search (keeps_rules, write-Keeps, step-Keeps, arith)

  run_calls-Ends :
      (messages : List Entry) (calls : List ToolCall) (results : List Entry) (s : Session W)
      → Steady messages s
      → ((rest : List Entry) → IsPairedAfter calls rest → IsPaired (messages ++ (results ++ rest)))
      → Ends (run_calls world calls results s)
  unfolding run_calls modify reads
  run_calls-Ends messages [] results s h complete = record {
    paired = rw (h.kept, ← append-nil results) (complete [] tt);
    sound = h.sound;
  }
  run_calls-Ends messages (call ∷ calls) results s h complete =
      whole_if Ends _ _ s (call.name == "finish")
        (λ _.
          Ends-then messages (finish world call) _ s ((finish-Keeps messages call).at s h)
            (λ a t held. held.sound))
        (λ _.
          Ends-bind (Steady messages) (Answers call) (dispatch world call) _ s
            ((dispatch-Keeps world messages call).at s h) (dispatch-Yields world call)
            (λ t held. held.sound)
            (λ entry t answers held.
              run_calls-Ends messages calls (results ++ entry ∷ []) t held (λ rest paired.
                rw (append_assoc results (entry ∷ []) rest)
                  (complete (entry ∷ rest) (answered_first call calls entry rest answers paired)))))

  -- A turn with calls that does not end the run is followed by all its results.
  use_tools-Ends :
      (messages : List Entry) (turn : ToolTurn) (calls : List ToolCall) (s : Session W)
      → IsPaired messages
      → Steady messages s
      → Ends (use_tools world turn calls s)
  unfolding use_tools modify reads ◌>>=◌
  use_tools-Ends messages turn [] s paired h = h.sound
  use_tools-Ends messages turn (call ∷ calls) s paired h =
      let entry = assistant turn.text (call ∷ calls) turn.raw_content in
      run_calls-Ends (messages ++ entry ∷ []) (call ∷ calls) [] _
        (record { kept = ap (λ es. es ++ entry ∷ []) h.kept; sound = h.sound })
        (λ rest answered.
          rw (append_assoc messages (entry ∷ []) rest)
            (IsPairedAfter-append [] messages (entry ∷ rest) paired answered))

  pub announce_model-Keeps :
      (messages : List Entry) (turn : ToolTurn)
      → Keeps (Steady messages) (announce_model world turn)
  unfolding announce_model
  announce_model-Keeps messages turn = search (keeps_rules, step-Keeps)

  -- The branch of `take_turn` for a refusal.
  abbrev decline : ToolTurn → Exec (Session W) Bool
  decline turn = do
    modify (on_agent (λ a. record a { state = State.error }))
    step world "error" turn.text none
    modify (on_agent (λ a. record a { summary = "The model declined this request." }))
    pure true

  pub take_turn-Ends :
      (messages : List Entry) (turn : ToolTurn) (s : Session W)
      → IsPaired messages
      → Steady messages s
      → Ends (take_turn world turn s)
  unfolding take_turn
  take_turn-Ends messages turn s paired h =
      whole_if Ends _ _ s (turn.stop_reason == "refusal")
        (λ _.
          over_steadily messages (decline turn) s h
            (search (keeps_rules, write-Keeps, step-Keeps, arith))
            (search (Yields-pure, Yields-then)))
        (λ _.
          Ends-then messages (if turn.text == "" then skip else step world "thought" turn.text none)
            _ s
            ((Keeps-if (turn.text == "") skip (step world "thought" turn.text none)
                (λ _. Keeps-reads (λ _. ok tt))
                (λ _. step-Keeps world messages "thought" turn.text none)).at
              s h)
            (λ a t held. use_tools-Ends messages turn turn.tool_calls t paired held))
