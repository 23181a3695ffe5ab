-- ===== src/BlockAgent/Induction/Rounds.antt =====
-- The induction principle, carried from the tool dispatch to `_loop` and `run`.
use grafux_orchestrator.Python.{ok}
use grafux_orchestrator.Prelude.{
  ℕ, zero, suc, String, sym, show, append_not_blank, Bool-cases, inl, inr, ◌<>◌, ◌≡◌, refl, true,
  false, not, List, [], ◌∷◌, ◌++◌, ◌==◌, arith, leb,
}
use mathlib.Core.Bool.{false≢true}
use grafux_orchestrator.BlockAgent.Data.{ToolCall, ToolTurn, Entry, Agent, World, Session, prompted}
use grafux_orchestrator.Exec.{
  reads, Keeps, keeps_rules, Keeps-bind, Keeps-if, Keeps-reads, if_at, lift_at, bind_at, modify,
}
use grafux_orchestrator.BlockAgent.Loop.{
  announce_model, finish, conclude, summarise, wrap_up, run_calls, use_tools, take_turn, consult,
  halt, give_up, round, rounds, loop, fail, close, run, budget_exhausted,
}
use grafux_orchestrator.BlockAgent.Induction.{
  noted, use_step, Withstands, SameCore, seam_rules, dispatch-Keeps,
}
use grafux_orchestrator.BlockAgent.Seam.{on_agent, call_llm_tools}

conclude-SameCore : (call : ToolCall) (a : Agent) → SameCore a (conclude call a)
unfolding conclude
conclude-SameCore call a = ground arith

pub budget_left :
    (a : Agent) (now : ℕ)
    → not (budget_exhausted a now == "") ≡ false
    → leb a.policy.max_steps a.steps_used ≡ false
unfolding budget_exhausted
budget_left a now h = elim (Bool-cases (leb a.policy.max_steps a.steps_used)) [
  | inl spent ↦
      let named = append_not_blank "the " (show a.policy.max_steps <> "-step budget") refl in
      absurd (false≢true (sym (rw (spent, budget_exhausted, named) at h)))
  | inr left ↦ left
]

module _ {W : Type 0} (world : World W) {P : Session W → Type 0} (rules : Withstands world P) where
  announce_model-Keeps : (turn : ToolTurn) → Keeps P (announce_model world turn)
  unfolding announce_model
  announce_model-Keeps turn = search seam_rules

  finish-Keeps : (call : ToolCall) → Keeps P (finish world call)
  unfolding finish
  finish-Keeps call = search (seam_rules, conclude-SameCore)

  summarise-Keeps : (budget system : String) → Keeps P (summarise world budget system)
  unfolding summarise
  summarise-Keeps budget system = search (seam_rules, arith)

  wrap_up-Keeps : (budget system : String) → Keeps P (wrap_up world budget system)
  unfolding wrap_up
  wrap_up-Keeps budget system = search (seam_rules, summarise-Keeps, arith) depth 12

  run_calls-Keeps :
      (calls : List ToolCall) (results : List Entry) → Keeps P (run_calls world calls results)
  unfolding run_calls
  run_calls-Keeps [] results = search (seam_rules, arith)
  run_calls-Keeps (call ∷ calls) results =
      Keeps-if (call.name == "finish") _ _ (λ _. search (seam_rules, finish-Keeps))
        (λ _.
          Keeps-bind _ _ (dispatch-Keeps world rules call)
            (λ entry. run_calls-Keeps calls (results ++ entry ∷ [])))

  use_tools-Keeps : (turn : ToolTurn) (calls : List ToolCall) → Keeps P (use_tools world turn calls)
  unfolding use_tools
  use_tools-Keeps turn [] = search (seam_rules, arith)
  use_tools-Keeps turn (call ∷ calls) = search (seam_rules, run_calls-Keeps, arith)

  take_turn-Keeps : (turn : ToolTurn) → Keeps P (take_turn world turn)
  unfolding take_turn
  take_turn-Keeps turn = search (seam_rules, use_tools-Keeps, arith) depth 10

  -- A consultation keeps what holds once the step is used up, and still when the model has answered.
  pub consult_at :
      (system : String) (declarations : List String) (s : Session W)
      → P (on_agent use_step s)
      → ((messages : List Entry) (w : W)
          → P (noted world (prompted messages declarations) w (on_agent use_step s)))
      → P (consult world system declarations s).1
  unfolding consult modify reads call_llm_tools
  consult_at system declarations s spent h =
      lift_at P (world.diagram_context s.world) _ (on_agent use_step s) spent (λ canvas made.
        bind_at P (call_llm_tools world _ _ declarations _) _ _ (h _ _)
          (λ turn. search (seam_rules, announce_model-Keeps, take_turn-Keeps)))

  halt-Keeps : Keeps P (halt world)
  unfolding halt
  halt-Keeps = search (seam_rules, arith)

  give_up-Keeps : (budget system : String) → Keeps P (give_up world budget system)
  unfolding give_up
  give_up-Keeps budget system = search (seam_rules, wrap_up-Keeps)

  pub round-Keeps :
      (system : String) (declarations : List String) → Keeps P (round world system declarations)
  unfolding round
  round-Keeps system declarations = record {
    at = λ s h.
        let now = world.monotonic s.world in
        if_at P s.agent.stopping _ _ s (λ _. halt-Keeps.at s h)
          (λ live.
            if_at P (not (budget_exhausted s.agent now == "")) _ _ s
              (λ _. (give_up-Keeps _ system).at s h)
              (λ left.
                let open_step = budget_left s.agent now left in
                consult_at system declarations s (rules.spend s live open_step h)
                  (λ messages w. rules.consult messages declarations w s live open_step h)));
  }

  rounds-Keeps :
      (fuel : ℕ) (system : String) (declarations : List String)
      → Keeps P (rounds world fuel system declarations)
  unfolding rounds
  rounds-Keeps zero system declarations = search keeps_rules
  rounds-Keeps (suc fuel) system declarations =
      Keeps-bind _ _ (round-Keeps system declarations) (λ done.
        Keeps-if done _ _ (λ _. Keeps-reads (λ _. ok true))
          (λ _. rounds-Keeps fuel system declarations))

  fail-Keeps : (exc : String) → Keeps P (fail world exc)
  unfolding fail
  fail-Keeps exc = search (seam_rules, arith)

  close-Keeps : Keeps P (close world)
  unfolding close
  close-Keeps = search (seam_rules, arith)

  loop-Keeps : Keeps P (loop world)
  unfolding loop
  loop-Keeps = search (keeps_rules, rounds-Keeps)

  -- Whatever withstands the changes of the loop is kept by every run, however it ends.
  pub run-Keeps : (instruction : String) → Keeps P (run world instruction)
  unfolding run
  run-Keeps instruction = search (seam_rules, loop-Keeps, fail-Keeps, close-Keeps, arith) depth 12
