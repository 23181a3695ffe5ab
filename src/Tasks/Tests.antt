-- ===== src/Tasks/Tests.antt =====
-- A table for tests, and the theorems on executions at concrete data.
use grafux_orchestrator.Prelude.{some, String, ◌≡◌, refl, true, false, none, [], ◌∷◌}
use grafux_orchestrator.Python.{text, end, field, ok, raised}
use grafux_orchestrator.Exec.{pure}
use grafux_orchestrator.Exec.Outcomes.{Returns}
use grafux_orchestrator.Workflow.{State, Update, Message, Result, nothing, merge, next_node}
use grafux_orchestrator.Workflow.Nodes.{agent_node, cancellable_node}
use grafux_orchestrator.Tasks.{Row, Store, Retry, again, execute_workflow, find, expire}
use grafux_orchestrator.Tasks.{retry_failed_execution}
use grafux_orchestrator.Tasks.Rows.{retry_failed_execution-pending}
use grafux_orchestrator.Tasks.Endings.{
  status_of, IsAt, execute_workflow-IsAt, execute_workflow-spares,
}
use grafux_orchestrator.Tasks.Cancelled.{
  IsMisreported, agent_node-cancelled, cancellable_node-cancelled,
}

abbrev fresh : String → Row
fresh id = record {
  id = id;
  workflow_id = some "w";
  org_id = "o";
  project_id = "p";
  triggered_by = none;
  status = "pending";
  input = field "message" (text "hi") end;
  output = none;
  error_message = none;
  celery_task_id = none;
  retry_count = 0;
  created_at = 5;
  started_at = none;
  finished_at = none;
}

abbrev done : Result
done = record { output = "hi"; tool_results = end; iterations = 1; error = none; cancelled = false }

abbrev engine : grafux_orchestrator.Tasks.Services (Unit {0})
engine = record {
  utcnow = λ w. 7;
  load_graph = λ id w. (ok tt, w);
  engine_run = λ w. (ok done, w);
  retry = λ exc w. (again, w);
  apply_async = λ job w. (ok tt, w);
}

abbrev table : Store (Unit {0})
table = record { rows = fresh "a" ∷ fresh "b" ∷ []; world = tt }

expired : expire 5 (fresh "a" ∷ []) ≡ fresh "a" ∷ []
unfolding expire
expired = refl

row_b : IsAt engine "b" "pending" table.rows
unfolding find
row_b = record { row = fresh "b"; found = refl; same = refl }

execute_workflow-IsAt_example :
    ((execute_workflow engine "b" "w" true table).0 ≡ ok done)
    × IsAt engine "b" (status_of done) (execute_workflow engine "b" "w" true table).1.rows
execute_workflow-IsAt_example =
    execute_workflow-IsAt engine "b" "w" "pending" true done table row_b refl refl

execute_workflow-spares_example :
    find "a" (execute_workflow engine "b" "" true table).1.rows ≡ find "a" table.rows
execute_workflow-spares_example = execute_workflow-spares engine "b" "a" "" true table refl

abbrev idle : State
idle = record {
  execution_id = "e";
  org_id = "o";
  project_id = "p";
  workflow_id = none;
  messages = [];
  current_node = "agent";
  tool_results = end;
  agent_memory = end;
  iteration = 0;
  metadata = end;
  error = none;
  cancelled = false;
}

abbrev running : Store (Unit {0})
running = record { rows = record (fresh "e") { status = "running" } ∷ []; world = tt }

-- The cancel flag is set.
abbrev flagged : grafux_orchestrator.Workflow.Nodes.Services (Unit {0})
flagged = record {
  exists = λ key w. (ok true, w);
  emit = λ id kind payload w. (ok tt, w);
  has_api_key = true;
  make_chat_model = λ model tools. ok tt;
  ainvoke = λ messages w. (raised "no model", w);
  uuid4 = λ w. "fresh";
  invoke_tool = λ name args org w. (raised "no tool", w);
  research = λ query w. (raised "no web", w);
  execute_code = λ code w. (raised "no sandbox", w);
  send_command = λ device command params w. (raised "no device", w);
  repr = λ s. s;
}

row_e : IsAt engine "e" "running" running.rows
unfolding find
row_e = record { row = record (fresh "e") { status = "running" }; found = refl; same = refl }

agent_node-cancelled_example :
    Returns (λ u. IsMisreported engine running 10 (merge idle u)) (agent_node flagged idle) tt
agent_node-cancelled_example =
    agent_node-cancelled engine running flagged 10 idle "running" tt row_e refl

cancellable_node-cancelled_example :
    let t = merge idle (record nothing { cancelled = true }) in
    (cancellable_node flagged (λ s. pure nothing) idle tt
      ≡ (ok (record nothing { cancelled = true }), tt))
    × (next_node 10 "mcp" t ≡ "agent")
    × Returns (λ u. IsMisreported engine running 10 (merge t u)) (agent_node flagged t) tt
cancellable_node-cancelled_example =
    cancellable_node-cancelled engine running flagged 10 "mcp" (λ s. pure nothing) idle "running" tt
      refl row_e refl refl

-- A failed execution, with the traces of its failure.
abbrev failed_row : Row
failed_row = record (fresh "b") {
  status = "failed";
  error_message = some "no model";
  finished_at = some 6;
}

abbrev failed_table : Store (Unit {0})
failed_table = record { rows = fresh "a" ∷ failed_row ∷ []; world = tt }

found_b : find "b" failed_table.rows ≡ some failed_row
unfolding find
found_b = refl

retry_failed_execution-pending_example :
    ((retry_failed_execution engine "b" failed_table).0
      ≡ ok (field "execution_id" (text "b") (field "status" (text "retrying") end)))
    × ((retry_failed_execution engine "b" failed_table).1.world ≡ tt)
    × (find "b" (retry_failed_execution engine "b" failed_table).1.rows
        ≡ some (record failed_row { status = "pending"; retry_count = 1 }))
retry_failed_execution-pending_example =
    retry_failed_execution-pending engine "b" failed_row failed_table found_b
