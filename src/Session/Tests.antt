-- ===== src/Session/Tests.antt =====
-- Concrete courses of a session of app/modules/session/router.py: witnesses and tests.
use grafux_orchestrator.Prelude.{
  ℕ, ◌<◌, String, ◌≡◌, refl, ◌⊎◌, Bool, true, false, Option, none, some, List, [], ◌∷◌, arith, find,
  holds,
}
use grafux_orchestrator.Python.{null, flag, text, obj, Fields, end, field, get_or, to_str, word}
use grafux_orchestrator.BlockAgent.Policy.{default_policy}
use grafux_orchestrator.BlockAgent.Data.{State, Agent}
use grafux_orchestrator.Session.Requests.{
  Requests, no_requests, dispatch_client, receive, message, lost, Ended, timed_out, replied,
  Verdict, Patience, no_answer, failed_with, await_client, text_or,
}
use grafux_orchestrator.Session.Requests.Deadline.{IsInTime, await_client-IsInTime}
use grafux_orchestrator.Session.Requests.Outcomes.{IsReported, receive-IsReported}
use grafux_orchestrator.Session.Agents.{
  Task, Desk, Step, press, instruction, over, step, steps, start_block_agent, stop_block_agent,
}
use grafux_orchestrator.Session.Agents.Sessions.{was_granted, steps-granted, steps-silenced}
use grafux_orchestrator.Session.Agents.Replaced.{replaced-lost}

-- A run that is asked for at 0, and is waited for with the patience of `act`.
abbrev patience : Patience
patience = record { idle_timeout = 180000; hard_timeout = 2700000; what = "run_block on alu" }

asked : Requests
unfolding dispatch_client
asked = dispatch_client 0 "r1" (field "type" (text "agent_action") end) "b1" no_requests

abbrev progress : Fields
progress =
    field "type" (text "agent_action_progress")
      (field "request_id" (text "r1") (field "sub_status" (text "Round 2 of 3") end))

abbrev result : Bool → Fields
result ok = field "type" (text "agent_action_result") (
    field "request_id" (text "r1")
      (field "ok" (flag true) (field "observation" (obj "" (field "ok" (flag ok) end)) end)))

abbrev verdict_at : Option Ended → Option (Verdict × ℕ)
verdict_at none = none
verdict_at (some e) = some (e.verdict, e.at)

-- With progress in between, a reply is heard after more than an idle window.
kept_alive :
    verdict_at (
      await_client "r1" patience 0
        (message 170000 progress ∷ message 300000 (result true) ∷ [])
        asked)
    ≡ some (
      replied
          (field "ok" (flag true) (field "detail" (text "") (field "status_text" (text "") end))),
      300000,
    )
unfolding await_client asked
kept_alive = refl

-- Without it, the wait ends with the idle window.
silent :
    verdict_at (await_client "r1" patience 0 (message 300000 (result true) ∷ []) asked)
    ≡ some (timed_out (no_answer "run_block on alu"), 180000)
unfolding await_client asked
silent = refl

disconnected :
    verdict_at (await_client "r1" patience 0 (lost 7 ∷ []) asked)
    ≡ some (replied (failed_with "the client disconnected"), 7)
unfolding await_client asked
disconnected = refl

await_client-IsInTime_example :
    IsInTime "r1" 2700001 (await_client "r1" patience 1 (message 170000 progress ∷ []) asked)
unfolding asked find
await_client-IsInTime_example =
    await_client-IsInTime "r1" patience 1 0 (message 170000 progress ∷ []) asked refl refl
      (omega arith)

receive-IsReported_example :
    IsReported "r1"
      (result false)
      (obj "" (field "ok" (flag false) end))
      (receive 5 (result false) asked)
unfolding asked text_or get_or to_str holds
receive-IsReported_example = receive-IsReported 5 (result false) asked refl refl refl refl

-- An observation that is a text ends the session, and with it the wait.
malformed :
    verdict_at (
      await_client "r1" patience 0
        (message 5 (
            field "type"
              (text "agent_action_result")
              (field "request_id" (text "r1") (field "observation" (text "done") end)))
          ∷ [])
        asked)
    ≡ some (replied (failed_with "the client disconnected"), 5)
unfolding await_client asked
malformed = refl

abbrev nobody : Agent
nobody = record {
  block_id = "";
  block_name = "";
  block_type = "";
  policy = default_policy;
  model = none;
  goal = "";
  state = State.idle;
  summary = "";
  goal_met = false;
  steps_used = 0;
  runs_used = 0;
  expensive_runs_used = 0;
  messages = [];
  seq = 0;
  started_at = 0;
  stopping = false;
  detached = false;
}

abbrev no_task : Task
no_task = record { block_id = ""; loop = 0; instruction = ""; finished = true; cancelled = false }

abbrev empty_desk : Desk
empty_desk = record {
  agents = [];
  agent_tasks = [];
  loops = λ n. nobody;
  next_loop = 0;
  tasks = λ t. no_task;
  next_task = 0;
  team_goal = "";
  canvas_state = null;
  active_blocks = null;
  saved_library = null;
  sent = [];
}

abbrev button : String → Fields
button b = field "block_id" (text b) (field "block_name" (text "alu") end)

-- Two presses, of which the account may make the first, and a message.
abbrev course : List Step
course =
    press true true (button "b1")
    ∷ press false true (button "b2")
    ∷ over 0
    ∷ instruction (button "b1")
    ∷ []

course_ends :
    let e = steps course empty_desk in
    (find "b1" e.agents ≡ some 0) × (find "b2" e.agents ≡ none) × (e.next_task ≡ 2)
unfolding steps
course_ends = (refl, refl, refl)

steps-granted_example :
    let e = steps course empty_desk in
    ((b : String) (n : ℕ) → find b e.agents ≡ some n → was_granted course b ≡ true)
    × ((t : ℕ) → t < e.next_task → was_granted course (e.tasks t).block_id ≡ true)
steps-granted_example =
    steps-granted course empty_desk (record { agents = refl; next_loop = refl; next_task = refl })

steps-silenced_example :
    let e =
      steps (press true true (button "b1") ∷ press true false (button "b1") ∷ []) empty_desk in
    (find (e.loops 0).block_id e.agents ≡ some 0) ⊎ ((e.loops 0).detached ≡ true)
unfolding steps
steps-silenced_example =
    steps-silenced (press true true (button "b1") ∷ press true false (button "b1") ∷ []) empty_desk
      0 (record { agents = refl; next_loop = refl; next_task = refl }) (omega arith)

-- Agent was pressed once, and its run goes on.
pressed : Desk
unfolding start_block_agent
pressed = start_block_agent true true (button "b1") empty_desk

replaced-lost_example :
    let e = step (over 0) (step (press true false (button "b1")) pressed) in
    (find "b1" e.agents ≡ some 1)
    × ((e.tasks 1).loop ≡ 1)
    × ((e.tasks 1).finished ≡ false)
    × (find "b1" e.agent_tasks ≡ none)
    × ((stop_block_agent true (λ b. false) "b1" e).tasks ≡ e.tasks)
unfolding pressed word
replaced-lost_example =
    replaced-lost (button "b1") 0 0 pressed true (λ b. false) refl refl refl refl refl refl
      (omega arith)
