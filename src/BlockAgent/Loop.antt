-- ===== src/BlockAgent/Loop.antt =====
-- `run`, `_loop` and what they call, of `BlockAgentLoop` in app/modules/session/block_agent.py.
use grafux_orchestrator.Prelude.{
  ℕ, zero, suc, ◌-◌, ◌/◌, ◌<>◌, String, ◌==◌, Bool, true, false, not, ◌&&◌, none, some, List, [],
  ◌∷◌, ◌++◌, show, strip, lower, leb, ◌=ℕ◌, one_of, if◌then◌else◌,
}
use grafux_orchestrator.Python.{word, or_text}
use grafux_orchestrator.CanvasTools.{to_declarations}
use grafux_orchestrator.BlockAgent.Policy.{tool_names}
use grafux_orchestrator.BlockAgent.Data.{
  ToolCall, ToolTurn, Entry, user, assistant, State, Agent, World, Session,
}
use grafux_orchestrator.Exec.{
  reads, Exec, pure, gets, modify, skip, try_except, try_finally, ◌>>=◌, ◌>>◌,
}
use grafux_orchestrator.BlockAgent.Seam.{on_agent, call_llm_tools, step, report_state}
use grafux_orchestrator.BlockAgent.Dispatch.{dispatch}
use grafux_orchestrator.BlockAgent.Prompt.{build_system_prompt, context_message}

abbrev pub say : Entry → Agent → Agent
say entry a = record a { messages = a.messages ++ entry ∷ [] }

-- `elapsed`, at a reading of the clock
abbrev pub elapsed : Agent → ℕ → ℕ
elapsed a now = if a.started_at =ℕ 0 then 0 else now - a.started_at

-- `_budget_exhausted`
unfoldable pub budget_exhausted : Agent → ℕ → String
budget_exhausted a now =
    if leb a.policy.max_steps a.steps_used
    then "the " <> (show a.policy.max_steps <> "-step budget")
    else if leb a.policy.max_wall_clock_ms (elapsed a now)
    then "the " <> (show (a.policy.max_wall_clock_ms / 1000) <> "-second time budget")
    else ""

-- The verdict of a `finish` call.
unfoldable pub conclude : ToolCall → Agent → Agent
unfolding word lower
conclude call a = record a {
  state = State.finished;
  summary = or_text (word "summary" call.arguments) "Done.";
  goal_met = one_of (lower (word "goal_met" call.arguments)) ("true" ∷ "yes" ∷ "1" ∷ []);
}

outstanding : ToolCall → Agent → String
unfolding word
outstanding call a =
    let blocking = word "blocking" call.arguments in
    if not a.goal_met && not (blocking == "")
    then a.summary <> ("\n\nStill outstanding: " <> blocking)
    else a.summary

-- The instruction to stop and to sum up.
abbrev pub wrap_up_order : String → Entry
wrap_up_order budget = user (
    "You have reached "
    <> (budget
        <> " and must stop now. Do not call any tools. In a few sentences: what you changed, what you verified, what is still unproven, and the single next step you would take."))

module _ {W : Type 0} (world : World W) where
  -- `_announce_model`
  unfoldable pub announce_model : ToolTurn → Exec (Session W) (Unit {0})
  unfolding step ◌>>=◌ reads strip
  announce_model turn = do
    a ← gets (λ s. s.agent)
    let requested = strip (elim a.model [ none ↦ "" | some m ↦ m ])
    if a.steps_used =ℕ 1 && (not (requested == "") && not (requested == turn.model))
        then step world "note"
            (requested <> (" is not available here - running on " <> (turn.model <> " instead.")))
            none
        else skip

  -- `_finish`
  unfoldable pub finish : ToolCall → Exec (Session W) (Unit {0})
  unfolding step conclude outstanding ◌>>=◌ modify
  finish call = do
    modify (on_agent (conclude call))
    a ← gets (λ s. s.agent)
    step world "note" (outstanding call a) none

  -- The guarded part of `_wrap_up`: a call with no tools, whose text is the summary.
  unfoldable pub summarise : String → String → Exec (Session W) (Unit {0})
  unfolding call_llm_tools try_except strip ◌>>=◌
  summarise budget system =
      try_except
        (do
          a ← gets (λ s. s.agent)
          turn ← call_llm_tools world system a.messages [] a.model
          modify (
              on_agent (λ b. record b {
                summary = or_text (strip turn.text) ("Reached " <> (budget <> "."));
              })))
        (λ exc. modify (
          on_agent (λ b. record b {
            summary = "Reached " <> (budget <> (" (and could not summarise: " <> (exc <> ").")));
          })))

  -- `_wrap_up`
  unfoldable pub wrap_up : String → String → Exec (Session W) (Unit {0})
  unfolding step summarise ◌>>=◌ modify
  wrap_up budget system = do
    step world "note" ("Reached " <> (budget <> "; summarising what I did.")) none
    modify (on_agent (say (wrap_up_order budget)))
    summarise budget system
    modify (on_agent (λ b. record b { state = State.finished; goal_met = false }))
    a ← gets (λ s. s.agent)
    step world "note" a.summary none

  -- The `for` loop over the calls of a turn: `true` if one of them is `finish`.
  unfoldable pub run_calls : List ToolCall → List Entry → Exec (Session W) Bool
  unfolding dispatch finish ◌>>=◌ reads modify
  run_calls [] results = do
    modify (on_agent (λ a. record a { messages = a.messages ++ results }))
    pure false
  run_calls (call ∷ calls) results =
      let rest = λ (entry : Entry). run_calls calls (results ++ entry ∷ []) in
      if call.name == "finish"
      then (do finish call; pure true)
      else (do entry ← dispatch world call; rest entry)

  -- A turn with tool calls goes into the transcript, and then its calls are made.
  unfoldable pub use_tools : ToolTurn → List ToolCall → Exec (Session W) Bool
  unfolding run_calls ◌>>=◌ modify reads
  use_tools turn [] = do
    modify (
        on_agent (λ a. record a {
          state = State.finished;
          summary = or_text turn.text "The agent stopped without a summary.";
          goal_met = false;
        }))
    pure true
  use_tools turn (call ∷ calls) = do
    modify (on_agent (say (assistant turn.text (call ∷ calls) turn.raw_content)))
    run_calls (call ∷ calls) []

  unfoldable pub take_turn : ToolTurn → Exec (Session W) Bool
  unfolding use_tools step ◌>>=◌ modify reads
  take_turn turn =
      if turn.stop_reason == "refusal"
      then (do
        modify (on_agent (λ a. record a { state = State.error }))
        step world "error" turn.text none
        modify (on_agent (λ a. record a { summary = "The model declined this request." }))
        pure true)
      else (do
        if turn.text == "" then skip else step world "thought" turn.text none
        use_tools turn turn.tool_calls)

  -- The part of a round that a budget allows: the model is asked, and its turn is taken.
  unfoldable pub consult : String → List String → Exec (Session W) Bool
  unfolding call_llm_tools announce_model take_turn ◌>>=◌ modify reads
  consult system declarations = do
    modify (on_agent (λ a. record a { steps_used = suc a.steps_used }))
    a ← gets (λ s. s.agent)
    canvas ← reads (λ s. world.diagram_context s.world)
    turn ←
        call_llm_tools world system (a.messages ++ context_message canvas ∷ []) declarations a.model
    announce_model turn
    take_turn turn

  -- The two early returns of a round.
  unfoldable pub halt : Exec (Session W) Bool
  unfolding step ◌>>=◌ modify reads
  halt = do
    modify
        (on_agent (λ a. record a { state = State.stopped; summary = "Stopped at your request." }))
    step world "note" "Stopped at your request." none
    pure true

  unfoldable pub give_up : String → String → Exec (Session W) Bool
  unfolding wrap_up ◌>>=◌ reads
  give_up exhausted system = do wrap_up exhausted system; pure true

  -- One round of `while True` in `_loop`: `true` if it returns.
  unfoldable pub round : String → List String → Exec (Session W) Bool
  unfolding budget_exhausted halt give_up consult ◌>>=◌ reads
  round system declarations = do
    a ← gets (λ s. s.agent)
    now ← gets (λ s. world.monotonic s.world)
    let exhausted = budget_exhausted a now
    if a.stopping
        then halt
        else if not (exhausted == "")
        then give_up exhausted system
        else consult system declarations

  -- `while True`, on fuel: `false` if the fuel ran out before a round returned.
  unfoldable pub rounds : ℕ → String → List String → Exec (Session W) Bool
  unfolding round ◌>>=◌ reads
  rounds zero system declarations = pure false
  rounds (suc fuel) system declarations =
      let more = rounds fuel system declarations in
      do done ← round system declarations; if done then pure true else more

  -- `_loop`. Every round uses up a step, so the step budget bounds the rounds.
  unfoldable pub loop : Exec (Session W) Bool
  unfolding rounds build_system_prompt tool_names reads ◌>>=◌
  loop = do
    a ← gets (λ s. s.agent)
    rounds (suc a.policy.max_steps) (build_system_prompt world.system_prompt a)
        (to_declarations (some (tool_names a.policy)))

  abbrev pub opening : Agent → String → String
  opening a instruction = or_text (strip instruction) (
      "Work on the \""
      <> (a.block_name
          <> ("\" block ("
              <> (a.block_type
                  <> "). Start by reading what it and its neighbours already contain, then do whatever is needed to fulfil its objective well."))))

  -- `except Exception` of `run`
  unfoldable pub fail : String → Exec (Session W) (Unit {0})
  unfolding step ◌>>=◌ modify
  fail exc = do
    modify (on_agent (λ a. record a { state = State.error }))
    step world "error" ("The agent stopped after an internal error: " <> exc) none
    modify (on_agent (λ a. record a { summary = "Stopped after an internal error." }))

  abbrev pub leave : Agent → Agent
  leave a = record a { state = elim a.state [ State.running ↦ State.stopped | other ↦ other ] }

  -- `finally` of `run`
  unfoldable pub close : Exec (Session W) (Unit {0})
  unfolding report_state ◌>>=◌ modify
  close = do modify (on_agent leave); report_state world

  -- `run`
  unfoldable pub run : String → Exec (Session W) (Unit {0})
  unfolding loop fail close report_state try_except try_finally strip reads modify ◌>>=◌
  run instruction = do
    now ← gets (λ s. world.monotonic s.world)
    modify (on_agent (λ a. record a { started_at = now; state = State.running }))
    report_state world
    modify (on_agent (λ a. say (user (opening a instruction)) a))
    try_finally (try_except (do loop; skip) fail) close
