-- ===== src/Tasks/Cancelled.antt =====
-- What becomes of an execution that the user cancels, from the nodes of
-- app/modules/workflow/engine.py to the table that app/modules/queue/tasks.py writes.
use grafux_orchestrator.Prelude.{ℕ, String, ◌==◌, ◌≡◌, refl, true, false, some, if◌then◌else◌}
use grafux_orchestrator.Python.{ok}
use grafux_orchestrator.Exec.{Exec, reads, pure}
use grafux_orchestrator.Exec.Outcomes.{Returns, Returns-bind, bind-ok}
use grafux_orchestrator.Workflow.{
  State, Update, nothing, merge, result_of, final_event, end_node, should_continue, next_node,
}
use grafux_orchestrator.Workflow.Nodes.{Services, check_cancelled, agent_node, cancellable_node}
use grafux_orchestrator.Tasks.{Store, settle_result}
use grafux_orchestrator.Tasks.Endings.{IsAt, settle_result-IsAt}

-- The run is over in this state of the graph, after the agent; its last event says that the execution
-- was cancelled, and the task sets the row of the execution to `failed`.
module _ {V : Type 0} (tasks : grafux_orchestrator.Tasks.Services V) (table : Store V) where
  pub record IsMisreported (max_execution_steps : ℕ) (s : State) : Type 0 where
    pub over : next_node max_execution_steps "agent" s ≡ end_node
    pub event : final_event (result_of s) ≡ "execution.cancelled"
    pub row :
        IsAt tasks s.execution_id "failed"
          (settle_result tasks s.execution_id (result_of s) table).1.rows

  -- What the agent answers where the flag is set.
  abbrev flagged : Update
  flagged = record nothing { cancelled = true; error = some "Execution cancelled by user" }

  flagged-IsMisreported :
      (max_execution_steps : ℕ) (old : String) (s : State)
      → IsAt tasks s.execution_id old table.rows
      → IsMisreported max_execution_steps (merge s flagged)
  unfolding merge result_of final_event next_node should_continue
  flagged-IsMisreported max_execution_steps old s h = record {
    over = refl;
    event = refl;
    row = (settle_result-IsAt tasks s.execution_id old (result_of (merge s flagged)) table h).1;
  }

  module _ {W : Type 0} (services : Services W) (max_execution_steps : ℕ) where
    stops :
        (id : String) (w : W)
        → (check_cancelled services id w).0 ≡ ok true
        → Returns (λ stop. stop ≡ true) (check_cancelled services id) w
    stops id w e = record { value = true; returned = e; holds = refl }

    -- If the cancel flag is set when the agent node starts, the node answers with an error as well, so
    -- the run ends with the event that the execution was cancelled, while the task sets its row, if
    -- it has one, to `failed`.
    pub agent_node-cancelled :
        (s : State) (old : String) (w : W)
        → IsAt tasks s.execution_id old table.rows
        → (check_cancelled services s.execution_id w).0 ≡ ok true
        → Returns (λ u. IsMisreported max_execution_steps (merge s u)) (agent_node services s) w
    unfolding agent_node reads
    agent_node-cancelled s old w h e =
        Returns-bind (λ stop. stop ≡ true) (check_cancelled services s.execution_id) _ w
          (stops s.execution_id w e)
          (λ stop on. rw on (record {
            value = flagged;
            returned = refl;
            holds = flagged-IsMisreported max_execution_steps old s h;
          }))

    abbrev pub stopped : Update
    stopped = record nothing { cancelled = true }

    cancellable_node-stopped :
        (fn : State → Exec W Update) (s : State) (w : W)
        → (check_cancelled services s.execution_id w).0 ≡ ok true
        → cancellable_node services fn s w
          ≡ (ok stopped, (check_cancelled services s.execution_id w).1)
    unfolding cancellable_node reads
    cancellable_node-stopped fn s w e =
        bind-ok (check_cancelled services s.execution_id)
          (λ stop. if stop then pure stopped else fn s) w true e

    back_to_agent :
        (node : String) (s : State)
        → (node == "agent") ≡ false
        → next_node max_execution_steps node s ≡ "agent"
    unfolding next_node
    back_to_agent node s h = rw h refl

    -- If the cancel flag is set when a tool node starts, and still when it is read again, the node
    -- reads the flag and does nothing else, and answers no error; but the edge of the graph leads
    -- back to the agent, and the run ends as it does where the agent is the first to see the flag:
    -- with the event that the execution was cancelled, while the task sets its row, if it has one, to
    -- `failed`.
    pub cancellable_node-cancelled :
        (node : String) (fn : State → Exec W Update) (s : State) (old : String) (w : W)
        → (node == "agent") ≡ false
        → IsAt tasks s.execution_id old table.rows
        → (check_cancelled services s.execution_id w).0 ≡ ok true
        → (check_cancelled services s.execution_id (check_cancelled services s.execution_id w).1).0
          ≡ ok true
        → let after = (check_cancelled services s.execution_id w).1 in
          let t = merge s stopped in
          (cancellable_node services fn s w ≡ (ok stopped, after))
          × (next_node max_execution_steps node t ≡ "agent")
          × Returns
              (λ u. IsMisreported max_execution_steps (merge t u))
              (agent_node services t)
              after
    unfolding merge
    cancellable_node-cancelled node fn s old w tool h e again = (
      cancellable_node-stopped fn s w e,
      back_to_agent node (merge s stopped) tool,
      agent_node-cancelled (merge s stopped) old (check_cancelled services s.execution_id w).1 h
          again,
    )
