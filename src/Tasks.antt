-- ===== src/Tasks.antt =====
-- The life of an execution: `ExecutionRepository` of app/modules/persistence/repositories.py, the
-- marks of app/modules/workflow/service.py, and the tasks of app/modules/queue/tasks.py.
pub mod Rows
pub mod Endings
pub mod Cancelled
mod Tests
use grafux_orchestrator.Prelude.{
  ℕ, suc, String, Bool, true, false, not, ◌&&◌, Option, none, some, List, [], ◌∷◌, ◌==◌, ltb,
  if◌then◌else◌,
}
use grafux_orchestrator.Python.{text, Fields, end, field, Outcome, ok, raised, cancelled}
use grafux_orchestrator.Exec.{Exec, reads, pure, lift, gets, modify, skip, try_except, ◌>>=◌, ◌>>◌}
use grafux_orchestrator.Workflow.{Result, is_set, or_else}

-- A row of the executions. Times are in seconds.
pub record Row : Type 0 where
  pub id : String
  pub workflow_id : Option String
  pub org_id : String
  pub project_id : String
  pub triggered_by : Option String
  pub status : String
  pub input : Fields
  pub output : Option Result
  pub error_message : Option String
  pub celery_task_id : Option String
  pub retry_count : ℕ
  pub created_at : ℕ
  pub started_at : Option ℕ
  pub finished_at : Option ℕ

-- The optional arguments of `update_status`.
pub record Changes : Type 0 where
  pub output : Option Result
  pub error_message : Option String
  pub started_at : Option ℕ
  pub finished_at : Option ℕ

abbrev pub unchanged : Changes
unchanged = record { output = none; error_message = none; started_at = none; finished_at = none }

-- `if x is not None: values[…] = x`
abbrev pub given {ℓ} : {A : Type ℓ} → Option A → Option A → Option A
given (some x) old = some x
given none old = old

unfoldable pub changed : String → Changes → Row → Row
changed status c row = record row {
  status = status;
  output = given c.output row.output;
  error_message = given c.error_message row.error_message;
  started_at = given c.started_at row.started_at;
  finished_at = given c.finished_at row.finished_at;
}

-- `UPDATE … WHERE id = …`
unfoldable pub update_where : String → (Row → Row) → List Row → List Row
update_where id f [] = []
update_where id f (row ∷ rows) =
    let rest = update_where id f rows in if row.id == id then f row ∷ rest else row ∷ rest

-- `ExecutionRepository.get`
unfoldable pub find : String → List Row → Option Row
find id [] = none
find id (row ∷ rows) = let later = find id rows in if row.id == id then some row else later

-- `cleanup_expired_executions`, with the time `cutoff`
unfoldable pub expire : ℕ → List Row → List Row
unfolding changed
expire cutoff [] = []
expire cutoff (row ∷ rows) =
    let rest = expire cutoff rows in
    if row.status == "pending" && ltb row.created_at cutoff
    then changed "failed" (record unchanged { error_message = some "Expired: never started" }) row
      ∷ rest
    else row ∷ rest

-- The table, with what is behind the engine and the task queue.
pub record Store (W : Type 0) : Type 0 where
  pub rows : List Row
  pub world : W

-- What `task.retry` does: the task is to run again, or its retries are used up, or it gives the
-- exception back.
pub data Retry : Type 0 where
  again exhausted : Retry
  given_back : String → Retry

-- The arguments of `execute_workflow` that a retry gives to the queue.
pub record Job : Type 0 where
  pub execution_id : String
  pub workflow_id : Option String
  pub org_id : String
  pub project_id : String
  pub input_data : Fields

-- The clock, the database of workflows, the engine, `task.retry` and `execute_workflow.apply_async`.
pub record Services (W : Type 0) : Type 0 where
  pub utcnow : W → ℕ
  pub load_graph : String → W → Outcome (Unit {0}) × W
  pub engine_run : W → Outcome Result × W
  pub retry : String → W → Retry × W
  pub apply_async : Job → W → Outcome (Unit {0}) × W

module _ {W : Type 0} where
  -- `ExecutionRepository.update_status`
  unfoldable pub update_status : String → String → Changes → Exec (Store W) (Unit {0})
  unfolding update_where changed modify
  update_status id status changes =
      modify (λ s. record s { rows = update_where id (changed status changes) s.rows })

  -- `ExecutionRepository.get_or_raise`
  unfoldable pub get_or_raise : String → Exec (Store W) Row
  unfolding find reads ◌>>=◌
  get_or_raise id = do
    found ← gets (λ s. find id s.rows)
    elim found [ some row ↦ pure row | none ↦ lift (raised "Execution not found") ]

  -- `ExecutionRepository.increment_retry`
  unfoldable pub increment_retry : String → Exec (Store W) (Unit {0})
  unfolding get_or_raise update_where modify ◌>>=◌
  increment_retry id = do
    get_or_raise id
    modify (λ s. record s {
      rows = update_where id (λ row. record row { retry_count = suc row.retry_count }) s.rows;
    })

module _ {W : Type 0} (services : Services W) where
  abbrev pub now : Exec (Store W) ℕ
  now = gets (λ s. services.utcnow s.world)

  -- A call of what is behind the task.
  unfoldable pub behind : {A : Type 0} → (W → Outcome A × W) → Exec (Store W) A
  behind request s = let (r, w) = request s.world in (r, record s { world = w })

  -- `mark_execution_running`, `mark_execution_complete` and `mark_execution_failed`
  unfoldable pub mark_execution_running : String → Exec (Store W) (Unit {0})
  unfolding update_status reads ◌>>=◌
  mark_execution_running id = do
    t ← now
    update_status id "running" (record unchanged { started_at = some t })

  unfoldable pub mark_execution_complete : String → Result → Exec (Store W) (Unit {0})
  unfolding update_status reads ◌>>=◌
  mark_execution_complete id result = do
    t ← now
    update_status id "complete" (record unchanged { output = some result; finished_at = some t })

  unfoldable pub mark_execution_failed : String → String → Exec (Store W) (Unit {0})
  unfolding update_status reads ◌>>=◌
  mark_execution_failed id error = do
    t ← now
    update_status id "failed"
        (record unchanged { error_message = some error; finished_at = some t })

  unfoldable pub mark_execution_cancelled : String → Exec (Store W) (Unit {0})
  unfolding update_status reads ◌>>=◌
  mark_execution_cancelled id = do
    t ← now
    update_status id "cancelled" (record unchanged { finished_at = some t })

  -- The row after a run that returned a result.
  unfoldable pub settle_result : String → Result → Exec (Store W) (Unit {0})
  unfolding mark_execution_complete mark_execution_failed mark_execution_cancelled
  settle_result id result =
      if is_set result.error
      then mark_execution_failed id (or_else result.error "")
      else if result.cancelled
      then mark_execution_cancelled id
      else mark_execution_complete id result

  -- The guarded part of `_execute_workflow_async`.
  unfoldable pub run_engine : String → Exec (Store W) Result
  unfolding behind settle_result reads ◌>>=◌
  run_engine id = do result ← behind services.engine_run; settle_result id result; pure result

  -- `except Exception`: the task is retried, and the exception goes on.
  unfoldable pub give_back : String → String → Exec (Store W) Result
  unfolding behind mark_execution_failed reads ◌>>=◌
  give_back id exc = do
    retry ← behind (λ w. let (r, v) = services.retry exc w in (ok r, v))
    elim retry [
      | again ↦ lift (raised "Retry")
      | exhausted ↦ do mark_execution_failed id exc; lift (raised exc)
      | given_back e ↦ lift (raised e)
    ]

  -- `_execute_workflow_async`; `needs_graph` is `workflow_id and not graph_definition`.
  unfoldable pub execute_workflow : String → String → Bool → Exec (Store W) Result
  unfolding mark_execution_running run_engine give_back behind try_except reads ◌>>=◌
  execute_workflow id workflow_id needs_graph = do
    if needs_graph then behind (services.load_graph workflow_id) else skip
    mark_execution_running id
    try_except (run_engine id) (give_back id)

  -- What is queued of an execution.
  abbrev pub job_of : Row → Job
  job_of execution = record {
    execution_id = execution.id;
    workflow_id = execution.workflow_id;
    org_id = execution.org_id;
    project_id = execution.project_id;
    input_data = execution.input;
  }

  -- `retry_failed_execution`. The object that it has got is the one whose `retry_count` is raised; no
  -- column that is queued changes.
  unfoldable pub retry_failed_execution : String → Exec (Store W) Fields
  unfolding get_or_raise increment_retry update_status behind ◌>>=◌ reads
  retry_failed_execution id = do
    execution ← get_or_raise id
    increment_retry id
    update_status id "pending" unchanged
    behind (services.apply_async (record (job_of execution) { execution_id = id }))
    pure (field "execution_id" (text id) (field "status" (text "retrying") end))
