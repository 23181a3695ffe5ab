-- ===== src/Tasks/Endings.antt =====
-- What `_execute_workflow_async` of app/modules/queue/tasks.py leaves in the table.
use grafux_orchestrator.Prelude.{
  String, ◌≡◌, refl, ap, ◌∙◌, Bool, true, false, Option, none, some, List, ◌==◌, if◌then◌else◌,
}
use grafux_orchestrator.Python.{Outcome, ok, raised}
use grafux_orchestrator.Exec.{
  Exec, Keeps, keeps_rules, Keeps-modify, reads, lift, modify, try_except, continue, ◌>>=◌, ◌>>◌,
}
use grafux_orchestrator.Workflow.{Result, is_set, or_else}
use grafux_orchestrator.Tasks.{
  Row, Changes, unchanged, changed, update_where, find, Store, Services, Retry, again, exhausted,
  given_back, update_status, mark_execution_running, mark_execution_complete, mark_execution_failed,
  mark_execution_cancelled, settle_result, run_engine, give_back, execute_workflow, behind,
}
use grafux_orchestrator.Tasks.Rows.{on_row, find-update_where, find-update_where_other}

-- The status that a result asks for.
abbrev pub status_of : Result → String
status_of r = if is_set r.error then "failed" else if r.cancelled then "cancelled" else "complete"

abbrev pub status_in : Option Row → String
status_in none = ""
status_in (some row) = row.status

changed_id : (status : String) (c : Changes) (row : Row) → (changed status c row).id ≡ row.id
unfolding changed
changed_id status c row = refl

module _ {W : Type 0} (services : Services W) where
  -- The table has a row under this id, with the status.
  pub record IsAt (id status : String) (rows : List Row) : Type 0 where
    pub row : Row
    pub found : find id rows ≡ some row
    pub same : row.status ≡ status

  update_status-IsAt :
      (id status old : String) (c : Changes) (rows : List Row)
      → IsAt id old rows
      → IsAt id status (update_where id (changed status c) rows)
  unfolding changed
  update_status-IsAt id status old c rows h = record {
    row = changed status c h.row;
    found =
        find-update_where id (changed status c) rows (changed_id status c)
        ∙ ap (on_row (changed status c)) h.found;
    same = refl;
  }

  -- The action returns, and leaves the row with the status.
  abbrev Marks : String → String → Outcome (Unit {0}) × Store W → Type 0
  Marks id status r = (r.0 ≡ ok tt) × IsAt id status r.1.rows

  Marks-if :
      (id : String) (test : Bool) (x y : String) (m n : Exec (Store W) (Unit {0})) (t : Store W)
      → Marks id x (m t)
      → Marks id y (n t)
      → Marks id (if test then x else y) ((if test then m else n) t)
  Marks-if id true x y m n t hm hn = hm
  Marks-if id false x y m n t hm hn = hn

  pub settle_result-IsAt :
      (id old : String) (r : Result) (t : Store W)
      → IsAt id old t.rows
      → Marks id (status_of r) (settle_result services id r t)
  unfolding settle_result mark_execution_complete mark_execution_failed mark_execution_cancelled
      update_status modify reads ◌>>=◌ continue
  settle_result-IsAt id old r t h =
      let at = some (services.utcnow t.world) in
      let failed = record unchanged {
        error_message = some (or_else r.error "");
        finished_at = at;
      } in
      let stopped = record unchanged { finished_at = at } in
      let complete = record unchanged { output = some r; finished_at = at } in
      Marks-if id (is_set r.error) "failed" (if r.cancelled then "cancelled" else "complete") _ _ t
        (refl, update_status-IsAt id "failed" old failed t.rows h)
        (Marks-if id r.cancelled "cancelled" "complete" _ _ t
          (refl, update_status-IsAt id "cancelled" old stopped t.rows h)
          (refl, update_status-IsAt id "complete" old complete t.rows h))

  run_engine-IsAt :
      (id old : String) (r : Result) (t : Store W)
      → IsAt id old t.rows
      → (services.engine_run t.world).0 ≡ ok r
      → ((run_engine services id t).0 ≡ ok r)
        × IsAt id (status_of r) (run_engine services id t).1.rows
  unfolding run_engine behind reads ◌>>=◌ continue
  run_engine-IsAt id old r t h e =
      let after = record t { world = (services.engine_run t.world).1 } in
      let settled = settle_result-IsAt id old r after h in rw (e, settled.0) (refl, settled.1)

  ran-IsAt :
      (id old : String) (r : Result) (s : Store W)
      → IsAt id old s.rows
      → (services.engine_run s.world).0 ≡ ok r
      → (((mark_execution_running services id
              >> try_except (run_engine services id) (give_back services id))
            s).0
          ≡ ok r)
        × IsAt id
            (status_of r)
            ((mark_execution_running services id
                >> try_except (run_engine services id) (give_back services id))
              s).1.rows
  unfolding mark_execution_running update_status modify try_except reads ◌>>=◌ continue
  ran-IsAt id old r s h e =
      let running = record s {
        rows =
            update_where id
              (changed "running" (record unchanged { started_at = some (services.utcnow s.world) }))
              s.rows;
      } in
      let ran =
        run_engine-IsAt id "running" r running
          (update_status-IsAt id "running" old
            (record unchanged { started_at = some (services.utcnow s.world) }) s.rows h)
          e in
      rw ran.0 (refl, ran.1)

  -- The world once the graph was loaded, if it is to be.
  abbrev pub graph_loaded : String → Bool → W → W
  graph_loaded workflow_id true w = (services.load_graph workflow_id w).1
  graph_loaded workflow_id false w = w

  -- The loading of the graph does not fail, if it is to be loaded.
  abbrev pub HasGraph : String → Bool → W → Type 0
  HasGraph workflow_id true w = (services.load_graph workflow_id w).0 ≡ ok tt
  HasGraph workflow_id false w = Unit

  -- If the execution has a row, the graph can be loaded where it is not given, and the engine returns
  -- a result, the task returns it and the execution ends in the status that the result asks for:
  -- `failed` where it has an error, or else `cancelled` where it was cancelled, or else `complete`.
  pub execute_workflow-IsAt :
      (id workflow_id old : String) (needs_graph : Bool) (r : Result) (s : Store W)
      → IsAt id old s.rows
      → HasGraph workflow_id needs_graph s.world
      → (services.engine_run (graph_loaded workflow_id needs_graph s.world)).0 ≡ ok r
      → ((execute_workflow services id workflow_id needs_graph s).0 ≡ ok r)
        × IsAt id (status_of r) (execute_workflow services id workflow_id needs_graph s).1.rows
  unfolding execute_workflow behind reads ◌>>=◌ continue
  execute_workflow-IsAt id workflow_id old true r s h loaded e =
      rw loaded
        (ran-IsAt id old r (record s { world = (services.load_graph workflow_id s.world).1 }) h e)
  execute_workflow-IsAt id workflow_id old false r s h loaded e = ran-IsAt id old r s h e

  -- The rows of other executions are as they were.
  abbrev Spares : String → List Row → Store W → Type 0
  Spares other rows t = find other t.rows ≡ find other rows

  update_status-Keeps :
      (id other status : String) (c : Changes) (rows : List Row)
      → (id == other) ≡ false
      → Keeps (Spares other rows) (update_status id status c)
  unfolding update_status
  update_status-Keeps id other status c rows d = Keeps-modify _ (λ t h.
      find-update_where_other id other (changed status c) t.rows (changed_id status c) d ∙ h)

  behind-Keeps :
      {A : Type 0} (request : W → Outcome A × W) (other : String) (rows : List Row)
      → Keeps (Spares other rows) (behind services request)
  unfolding behind
  behind-Keeps request other rows = record { at = λ t h. h }

  module _ (id other : String) (rows : List Row) (d : (id == other) ≡ false) where
    settle_result-Keeps : (r : Result) → Keeps (Spares other rows) (settle_result services id r)
    unfolding settle_result mark_execution_complete mark_execution_failed mark_execution_cancelled
    settle_result-Keeps r = search (keeps_rules, update_status-Keeps) depth 8

    run_engine-Keeps : Keeps (Spares other rows) (run_engine services id)
    unfolding run_engine
    run_engine-Keeps = search (keeps_rules, behind-Keeps, settle_result-Keeps)

    retried-Keeps :
        (exc : String) (retry : Retry)
        → Keeps (Spares other rows) (elim retry [
          | again ↦ lift {A = Result} (raised "Retry")
          | exhausted ↦ do mark_execution_failed services id exc; lift (raised exc)
          | given_back e ↦ lift (raised e)
        ])
    unfolding mark_execution_failed
    retried-Keeps exc again = search keeps_rules
    retried-Keeps exc exhausted = search (keeps_rules, update_status-Keeps)
    retried-Keeps exc (given_back e) = search keeps_rules

    give_back-Keeps : (exc : String) → Keeps (Spares other rows) (give_back services id exc)
    unfolding give_back
    give_back-Keeps exc = search (keeps_rules, behind-Keeps, retried-Keeps)

    execute-Keeps :
        (workflow_id : String) (needs_graph : Bool)
        → Keeps (Spares other rows) (execute_workflow services id workflow_id needs_graph)
    unfolding execute_workflow mark_execution_running
    execute-Keeps workflow_id needs_graph =
        search (keeps_rules, behind-Keeps, update_status-Keeps, run_engine-Keeps, give_back-Keeps)
          depth 10

  -- A task changes no row but that of its own execution, however the engine, the loading of the graph
  -- and the retry end.
  pub execute_workflow-spares :
      (id other workflow_id : String) (needs_graph : Bool) (s : Store W)
      → (id == other) ≡ false
      → find other (execute_workflow services id workflow_id needs_graph s).1.rows
        ≡ find other s.rows
  execute_workflow-spares id other workflow_id needs_graph s d =
      (execute-Keeps id other s.rows d workflow_id needs_graph).at s refl
