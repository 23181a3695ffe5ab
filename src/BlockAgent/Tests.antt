-- ===== src/BlockAgent/Tests.antt =====
-- A scripted world, runs of the agent in it, and the theorems at concrete data.
use grafux_orchestrator.Prelude.{
  String, ◌≡◌, ◌≢◌, refl, true, false, none, some, List, [], ◌∷◌, arith, show, strip,
}
use grafux_orchestrator.Python.{null, flag, text, Fields, end, field, Outcome, ok, raised}
use grafux_orchestrator.CanvasTools.{function_call_to_action, by_name}
use grafux_orchestrator.BlockAgent.Policy.{default_policy, tool_names, describes}
use grafux_orchestrator.BlockAgent.Observation.{render_observation}
use grafux_orchestrator.BlockAgent.Data.{
  ToolCall, ToolTurn, State, Agent, World, Interrupt, Session,
}
use grafux_orchestrator.Exec.{reads, ◌>>=◌}
use grafux_orchestrator.BlockAgent.Rules.{is_expensive, deny, deny_run, describe, charge}
use grafux_orchestrator.BlockAgent.Seam.{emit, report_state}
use grafux_orchestrator.BlockAgent.Dispatch.{attributed, dispatch}
use grafux_orchestrator.BlockAgent.Prompt.{build_system_prompt}
use grafux_orchestrator.BlockAgent.Loop.{budget_exhausted, conclude, loop, run}
use grafux_orchestrator.BlockAgent.Budget.{IsFrugal, run-IsFrugal}
use grafux_orchestrator.BlockAgent.Consent.{IsBudgeted, Allows, from_client-IsBudgeted}
use grafux_orchestrator.Python.{Value, obj, flag}
use grafux_orchestrator.BlockAgent.Policy.{from_client}
use grafux_orchestrator.BlockAgent.Deletion.{IsSparing, run-IsSparing}
use grafux_orchestrator.BlockAgent.Reports.{IsNumbered, run-IsNumbered, IsDiscreet, run-IsDiscreet}
use grafux_orchestrator.BlockAgent.Verdict.{opened, IsOver, loop-returns, run-IsOver}
use grafux_orchestrator.BlockAgent.Pairing.{PromptsAcceptable}
use grafux_orchestrator.BlockAgent.Pairing.Runs.{run-PromptsAcceptable}
use grafux_orchestrator.BlockAgent.Exemption.{IsPaid, own_run, aimless, aimless-Exempt}

abbrev call : String → Fields → ToolCall
call name args = record { id = "c"; name = name; arguments = args }

abbrev turn : List ToolCall → ToolTurn
turn calls = record {
  text = "";
  tool_calls = calls;
  stop_reason = "tool_use";
  usage = end;
  provider = "openai";
  model = "m";
  raw_content = null;
}

-- The model's answers are scripted; the canvas does what it is asked, and nobody interrupts.
abbrev next_turn : List ToolTurn → Outcome ToolTurn × List ToolTurn
next_turn [] = (raised "no more turns", [])
next_turn (t ∷ ts) = (ok t, ts)

abbrev scripted : World (List ToolTurn)
scripted = record {
  emit = λ message w. (ok tt, w);
  act = λ action expensive w. (ok (field "ok" (flag true) end), w);
  read_port = λ target direction port w. (ok "42", w);
  ask = λ block question w. (ok "", w);
  call_llm_tools = λ system messages declarations model w. next_turn w;
  diagram_context = λ w. ok "";
  monotonic = λ w. 1;
  interrupt = λ w. Interrupt.quiet;
  system_prompt = λ section. "";
}

abbrev fresh : Agent
fresh = record {
  block_id = "b1";
  block_name = "alu";
  block_type = "verilator";
  policy = default_policy;
  model = none;
  goal = "";
  state = State.idle;
  summary = "";
  goal_met = false;
  steps_used = 0;
  runs_used = 0;
  expensive_runs_used = 0;
  messages = [];
  seq = 0;
  started_at = 0;
  stopping = false;
  detached = false;
}

abbrev start : List ToolTurn → Session (List ToolTurn)
start turns = record { agent = fresh; world = turns; trace = [] }

abbrev script : List ToolTurn
script =
    turn (call "run_block" end ∷ [])
    ∷ turn (call "finish" (field "summary" (text "ok") (field "goal_met" (text "YES") end)) ∷ [])
    ∷ []

-- Everything that a run computes with.
program : Unit {0}
unfolding run dispatch reads function_call_to_action is_expensive deny deny_run describe charge
    budget_exhausted conclude render_observation describes tool_names by_name build_system_prompt
    show
program = tt

ran : Agent
unfolding program
ran = (run scripted "go" (start script)).1.agent

ran_verdict : (ran.summary ≡ "ok") × (ran.goal_met ≡ true) × (ran.runs_used ≡ 1) × (ran.seq ≡ 3)
unfolding ran
ran_verdict = (refl, refl, refl, refl)

run-PromptsAcceptable_example : PromptsAcceptable (run scripted "go" (start script)).1.trace
run-PromptsAcceptable_example = run-PromptsAcceptable scripted "go" (start script) tt tt

run-IsFrugal_example : IsFrugal default_policy (run scripted "go" (start script)).1
run-IsFrugal_example = run-IsFrugal scripted "go" default_policy (start script) (record {
  policy = refl;
  steps = omega arith;
  runs = omega arith;
  turns = omega arith;
  started = omega arith;
})

run-IsSparing_example : IsSparing default_policy (run scripted "go" (start script)).1
run-IsSparing_example =
    run-IsSparing scripted "go" default_policy (start script) refl
      (record { policy = refl; kept = tt })

run-IsNumbered_example : IsNumbered (run scripted "go" (start script)).1
run-IsNumbered_example = run-IsNumbered scripted "go" (start script) refl

run-IsDiscreet_example : IsDiscreet (run scripted "go" (start script)).1
run-IsDiscreet_example =
    run-IsDiscreet scripted "go" (start script) (record { silenced = tt; heeded = λ e. cc })

loop-returns_example : (loop scripted (start script)).0 ≢ ok false
loop-returns_example = loop-returns scripted (start script)

report_heard : (report_state scripted (opened scripted (start script))).0 ≡ ok tt
unfolding report_state reads emit ◌>>=◌
report_heard = refl

-- A canvas whose text cannot be made ends the run with an error.
blind : Agent
unfolding program
blind =
    (run (record scripted { diagram_context = λ w. raised "no diagram" }) "go"
      (start script)).1.agent

blind_ends : (blind.state ≡ State.error) × (blind.steps_used ≡ 1)
unfolding blind
blind_ends = (refl, refl)

run-IsOver_example : IsOver (run scripted "go" (start script)).1
run-IsOver_example = run-IsOver scripted "go" (start script) report_heard

fresh-IsPaid : IsPaid fresh
unfolding strip
fresh-IsPaid = record {
  may_run = refl;
  run_left = refl;
  expensive = refl;
  named = refl;
  not_none = refl;
  trimmed = refl;
}

aimless-Exempt_example :
    (deny fresh aimless ≡ "")
    × (function_call_to_action aimless.name aimless.arguments (field "name" (text "alu") end ∷ [])
        ≡ ok (some (own_run fresh)))
    × (is_expensive fresh aimless (some (attributed fresh (own_run fresh))) ≡ true)
aimless-Exempt_example = aimless-Exempt fresh fresh-IsPaid

abbrev greedy : Value
greedy = obj "" (field "delete" (flag true) (field "max_steps" (text "1000") end))

from_client-IsBudgeted_example :
    IsBudgeted (from_client greedy)
    × ((from_client greedy).may_delete ≡ true → Allows "delete" greedy)
from_client-IsBudgeted_example = from_client-IsBudgeted greedy
