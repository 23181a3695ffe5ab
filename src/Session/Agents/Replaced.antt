-- ===== src/Session/Agents/Replaced.antt =====
-- An agent that is replaced while its run goes on, of app/modules/session/router.py.
use grafux_orchestrator.Prelude.{
  ℕ, ◌<◌, String, ◌==◌, ◌≡◌, refl, sym, ap, ◌∙◌, Bool, true, false, Option, none, some, arith,
  eq_refl, find, assign, without_key, find-assign, find-without_key,
}
use mathlib.Core.Path.{subst}
use grafux_orchestrator.Python.{Fields, text, word, get_or, to_str}
use grafux_orchestrator.BlockAgent.Rules.{detach_agent}
use grafux_orchestrator.Session.Agents.{
  Task, Desk, store, cancel_task, stop_entry, stop_one, stop_each, stop_block_agent, take_context,
  wind_up, register, start_block_agent, task_over, press, over, step,
}

-- The desk after an agent was taken out whose task did not end in time.
abbrev cut_off : String → ℕ → ℕ → Desk → Desk
cut_off b n t d = cancel_task t (record d {
  agents = without_key b d.agents;
  agent_tasks = without_key b d.agent_tasks;
  loops = store n (detach_agent (d.loops n)) d.loops;
})

-- The heap of tasks where an older task `t` and the newest one were written.
newest :
    (t n : ℕ) (ended launched cut : Task) (heap : ℕ → Task)
    → t < n
    → store t ended (store n launched (store t cut heap)) n ≡ launched
newest t n ended launched cut heap le = ground arith

older_task :
    (t n : ℕ) (launched cut : Task) (heap : ℕ → Task)
    → t < n
    → store n launched (store t cut heap) t ≡ cut
older_task t n launched cut heap le = ground arith

module _ (b : String) (n t : ℕ) (d : Desk) where
  stop_one-cut_off :
      find b d.agents ≡ some n
      → find b d.agent_tasks ≡ some t
      → (d.tasks t).finished ≡ false
      → stop_one false false b d ≡ cut_off b n t d
  unfolding stop_one stop_entry wind_up
  stop_one-cut_off registered running going = rw registered (rw running (rw going refl))

-- A stop of a block that has no task in the table touches no task.
stop_entry-untouched :
    (notify in_time : Bool) (b : String) (o : Option ℕ) (d : Desk)
    → find b d.agent_tasks ≡ none
    → (stop_entry notify in_time b o d).tasks ≡ d.tasks
unfolding stop_entry wind_up
stop_entry-untouched notify in_time b none d h = refl
stop_entry-untouched true in_time b (some n) d h = rw h refl
stop_entry-untouched false in_time b (some n) d h = rw h refl

stop_block_agent-untouched :
    (notify : Bool) (in_time : String → Bool) (b : String) (d : Desk)
    → (b == "") ≡ false
    → find b d.agent_tasks ≡ none
    → (stop_block_agent notify in_time b d).tasks ≡ d.tasks
unfolding stop_block_agent stop_each stop_one
stop_block_agent-untouched notify in_time b d named h =
    rw named (stop_entry-untouched notify (in_time b) b (find b d.agents) d h)

module _ (msg : Fields) (n t : ℕ) (d : Desk) where
  press-register :
      (word "block_id" msg == "") ≡ false
      → (word "block_name" msg == "") ≡ false
      → start_block_agent true false msg d
        ≡ register
            (word "block_id" msg)
            (word "block_name" msg)
            msg
            (stop_one false false (word "block_id" msg) (take_context msg d))
  unfolding start_block_agent stop_block_agent stop_each
  press-register block name = rw (block, name) refl

  replaced_forgotten :
      (word "block_id" msg == "") ≡ false
      → (word "block_name" msg == "") ≡ false
      → find (word "block_id" msg) d.agents ≡ some n
      → find (word "block_id" msg) d.agent_tasks ≡ some t
      → (d.tasks t).finished ≡ false
      → (d.tasks t).block_id ≡ word "block_id" msg
      → t < d.next_task
      → let e = step (over t) (step (press true false msg) d) in
        (find (word "block_id" msg) e.agents ≡ some d.next_loop)
        × ((e.tasks d.next_task).loop ≡ d.next_loop)
        × ((e.tasks d.next_task).finished ≡ false)
        × (find (word "block_id" msg) e.agent_tasks ≡ none)
  unfolding step
  replaced_forgotten block name registered running going own older =
      let b = word "block_id" msg in
      let name_of = word "block_name" msg in
      let d' = take_context msg d in
      let cut : Task = record (d.tasks t) { cancelled = true } in
      let launched : Task = record {
        block_id = b;
        loop = d.next_loop;
        instruction = to_str (get_or "instruction" (text "") msg);
        finished = false;
        cancelled = false;
      } in
      let ended : Task = record (store d.next_task launched (store t cut d.tasks) t) {
        finished = true;
      } in
      let whole : start_block_agent true false msg d ≡ register b name_of msg (cut_off b n t d') =
        press-register block name
        ∙ ap (register b name_of msg) (stop_one-cut_off b n t d' registered running going) in
      subst
        (λ x.
          let e = task_over t x in
          (find b e.agents ≡ some d.next_loop)
          × ((e.tasks d.next_task).loop ≡ d.next_loop)
          × ((e.tasks d.next_task).finished ≡ false)
          × (find b e.agent_tasks ≡ none))
        (sym whole)
        (
          rw (find-assign, eq_refl) refl,
          ap (λ (k : Task). k.loop) (newest t d.next_task ended launched cut d.tasks older),
          ap (λ (k : Task). k.finished) (newest t d.next_task ended launched cut d.tasks older),
          subst
              (λ x.
                find b (without_key x (assign b d.next_task (without_key b d.agent_tasks))) ≡ none)
              (sym own
                ∙ sym (
                    ap (λ (k : Task). k.block_id)
                      (older_task t d.next_task launched cut d.tasks older)))
              (find-without_key b (assign b d.next_task (without_key b d.agent_tasks))),
        )

  -- If Agent is pressed for a block whose agent's run does not end within two seconds, the run that
  -- replaces it is forgotten as soon as the old one ends: its loop is registered and its task has not
  -- ended, but `_agent_tasks` has no task for the block, and a stop of the block cancels no task.
  pub replaced-lost :
      (notify : Bool) (in_time : String → Bool)
      → (word "block_id" msg == "") ≡ false
      → (word "block_name" msg == "") ≡ false
      → find (word "block_id" msg) d.agents ≡ some n
      → find (word "block_id" msg) d.agent_tasks ≡ some t
      → (d.tasks t).finished ≡ false
      → (d.tasks t).block_id ≡ word "block_id" msg
      → t < d.next_task
      → let e = step (over t) (step (press true false msg) d) in
        (find (word "block_id" msg) e.agents ≡ some d.next_loop)
        × ((e.tasks d.next_task).loop ≡ d.next_loop)
        × ((e.tasks d.next_task).finished ≡ false)
        × (find (word "block_id" msg) e.agent_tasks ≡ none)
        × ((stop_block_agent notify in_time (word "block_id" msg) e).tasks ≡ e.tasks)
  replaced-lost notify in_time block name registered running going own older =
      let e = step (over t) (step (press true false msg) d) in
      let h = replaced_forgotten block name registered running going own older in
      (
        h.0,
        h.1,
        h.2,
        h.3,
        stop_block_agent-untouched notify in_time (word "block_id" msg) e block h.3,
      )
