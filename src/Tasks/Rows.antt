-- ===== src/Tasks/Rows.antt =====
-- What an update of the executions of app/modules/persistence/repositories.py does to the rows.
use grafux_orchestrator.Prelude.{
  suc, ◌∙◌, String, ◌≡◌, refl, ap, true, false, Bool-cases, inl, inr, Option, none, some, List, [],
  ◌∷◌, ◌==◌, eq_iff, if◌then◌else◌,
}
use grafux_orchestrator.Python.{text, Fields, end, field, Outcome, ok, raised, cancelled}
use grafux_orchestrator.Exec.{pure, modify, reads, continue, ◌>>=◌}
use grafux_orchestrator.Tasks.{
  Store, Services, Job, behind, unchanged, changed, get_or_raise, increment_retry, update_status,
  retry_failed_execution, Row, find, update_where,
}

abbrev pub on_row : (Row → Row) → Option Row → Option Row
on_row f none = none
on_row f (some row) = some (f row)

-- The row with the id is changed.
pub find-update_where :
    (id : String) (f : Row → Row) (rows : List Row)
    → ((row : Row) → (f row).id ≡ row.id)
    → find id (update_where id f rows) ≡ on_row f (find id rows)
unfolding find update_where
find-update_where id f [] keeps = refl
find-update_where id f (row ∷ rows) keeps = elim (Bool-cases (row.id == id)) [
  | inl e ↦ rw (e, keeps row, e) refl
  | inr e ↦ rw (e, e) (find-update_where id f rows keeps)
]

differ : (x id other : String) → (x == id) ≡ true → (id == other) ≡ false → (x == other) ≡ false
differ x id other h d = let same = (eq_iff x id).0 h in rw same d

-- No other row is.
pub find-update_where_other :
    (id other : String) (f : Row → Row) (rows : List Row)
    → ((row : Row) → (f row).id ≡ row.id)
    → (id == other) ≡ false
    → find other (update_where id f rows) ≡ find other rows
unfolding find update_where
find-update_where_other id other f [] keeps d = refl
find-update_where_other id other f (row ∷ rows) keeps d = elim (Bool-cases (row.id == id)) [
  | inl e ↦
      rw (e, keeps row, differ row.id id other e d)
        (find-update_where_other id other f rows keeps d)
  | inr e ↦ rw e (
      ap (λ later. if row.id == other then some row else later)
        (find-update_where_other id other f rows keeps d))
]

got :
    {W : Type 0} (id : String) (row : Row) (s : Store W)
    → find id s.rows ≡ some row
    → get_or_raise id s ≡ (ok row, s)
unfolding get_or_raise reads ◌>>=◌ continue
got id row s h = rw h refl

-- What the task answers, by how the queueing ended.
abbrev pub retried : String → Outcome (Unit {0}) → Outcome Fields
retried id (ok _) = ok (field "execution_id" (text id) (field "status" (text "retrying") end))
retried id (raised e) = raised e
retried id cancelled = cancelled

-- The row of an execution that is retried.
abbrev pub pending_again : Row → Row
pending_again row = record row { status = "pending"; retry_count = suc row.retry_count }

module _ {W : Type 0} (services : Services W) (id : String) (row : Row) (s : Store W) where
  counted : List Row
  counted = update_where id (λ (r : Row). record r { retry_count = suc r.retry_count }) s.rows

  find-pending :
      find id s.rows ≡ some row
      → find id (update_where id (changed "pending" unchanged) counted) ≡ some (pending_again row)
  unfolding changed counted
  find-pending h =
      let count = λ (r : Row). record r { retry_count = suc r.retry_count } in
      find-update_where id (changed "pending" unchanged) counted (λ r. refl)
      ∙ ap (on_row (changed "pending" unchanged))
          (find-update_where id count s.rows (λ r. refl) ∙ ap (on_row count) h)

  queue_ended :
      (r : Outcome (Unit {0})) (t : Store W)
      → continue r
          (λ _. pure (field "execution_id" (text id) (field "status" (text "retrying") end)))
          t
        ≡ (retried id r, t)
  unfolding continue reads
  queue_ended (ok _) t = refl
  queue_ended (raised e) t = refl
  queue_ended cancelled t = refl

  -- An execution that is retried is pending again and has one more retry counted, and all else of its
  -- row stays as it was, the message of the old error and the time of its end included; then, and not
  -- before, the queue is given its workflow, organisation, project and input as the row has them, and
  -- if that fails the task fails with the row left pending.
  pub retry_failed_execution-pending :
      find id s.rows ≡ some row
      → let queued =
          services.apply_async
            (record {
              execution_id = id;
              workflow_id = row.workflow_id;
              org_id = row.org_id;
              project_id = row.project_id;
              input_data = row.input;
            })
            s.world in
        let r = retry_failed_execution services id s in
        (r.0 ≡ retried id queued.0)
        × (r.1.world ≡ queued.1)
        × (find id r.1.rows ≡ some (pending_again row))
  unfolding retry_failed_execution increment_retry update_status behind modify reads ◌>>=◌ continue
      counted
  retry_failed_execution-pending h =
      let job : Job = record {
        execution_id = id;
        workflow_id = row.workflow_id;
        org_id = row.org_id;
        project_id = row.project_id;
        input_data = row.input;
      } in
      let after : Store W = record s {
        rows = update_where id (changed "pending" unchanged) counted;
        world = (services.apply_async job s.world).1;
      } in
      let ended = queue_ended (services.apply_async job s.world).0 after in
      rw (got id row s h, got id row s h, ended) (refl, refl, find-pending h)
