-- ===== src/Session/Agents.antt =====
-- The block agents of `_OrchestratorSession`, of app/modules/session/router.py:
-- `_start_block_agent`, `_refuse_block_agent`, `_stop_block_agent`, `_on_agent_user_message`,
-- `_resume_block_agent`, `_stop_all_agents` and the tasks of the loops.
pub mod Custody
pub mod Sessions
pub mod Replaced
use grafux_orchestrator.Prelude.{
  ℕ, suc, String, ◌<>◌, ◌==◌, Bool, true, false, not, ◌&&◌, ◌||◌, Option, none, some, List, [], ◌∷◌,
  ◌++◌, strip, lower, ◌=ℕ◌, if◌then◌else◌, Table, find, holds, assign, without_key,
}
use grafux_orchestrator.Python.{
  Value, null, flag, num, text, Fields, end, field, truthy, to_str, get, get_or, word,
}
use grafux_orchestrator.BlockAgent.Policy.{AgentPolicy, default_policy, from_client}
use grafux_orchestrator.BlockAgent.Data.{State, Agent}
use grafux_orchestrator.BlockAgent.Rules.{stop_agent, detach_agent, resume_budget}

-- The task of a run of a loop: the block that its callback names, the loop, the instruction, whether
-- it has ended, and whether it was cancelled.
pub record Task : Type 0 where
  pub block_id : String
  pub loop : ℕ
  pub instruction : String
  pub finished : Bool
  pub cancelled : Bool

-- What the session keeps of its agents. Loops and tasks are objects with identities: `loops` and
-- `tasks` are the heap, filled below `next_loop` and `next_task`. `sent` is what was sent to the
-- client, the newest first.
pub record Desk : Type 0 where
  pub agents : Table ℕ
  pub agent_tasks : Table ℕ
  pub loops : ℕ → Agent
  pub next_loop : ℕ
  pub tasks : ℕ → Task
  pub next_task : ℕ
  pub team_goal : String
  pub canvas_state : Value
  pub active_blocks : Value
  pub saved_library : Value
  pub sent : List Fields

-- The object `n` of the heap is `a`.
abbrev pub store {ℓ} : {A : Type ℓ} → ℕ → A → (ℕ → A) → ℕ → A
store n a heap m = if m =ℕ n then a else heap m

abbrev pub tell : Fields → Desk → Desk
tell message d = record d { sent = message ∷ d.sent }

-- `BlockAgentLoop(...)`
unfoldable pub new_loop : String → String → String → AgentPolicy → Option String → String → Agent
new_loop block_id block_name block_type policy model goal = record {
  block_id = block_id;
  block_name = block_name;
  block_type = block_type;
  policy = policy;
  model = model;
  goal = goal;
  state = State.idle;
  summary = "";
  goal_met = false;
  steps_used = 0;
  runs_used = 0;
  expensive_runs_used = 0;
  messages = [];
  seq = 0;
  started_at = 0;
  stopping = false;
  detached = false;
}

-- `asyncio.create_task(agent.run(instruction))`, kept in `_agent_tasks`.
unfoldable pub launch : String → ℕ → String → Desk → Desk
unfolding assign
launch block_id loop instruction d = record d {
  tasks =
      store d.next_task
        (record {
          block_id = block_id;
          loop = loop;
          instruction = instruction;
          finished = false;
          cancelled = false;
        })
        d.tasks;
  next_task = suc d.next_task;
  agent_tasks = assign block_id d.next_task d.agent_tasks;
}

-- `task.cancel()`
abbrev pub cancel_task : ℕ → Desk → Desk
cancel_task t d = record d { tasks = store t (record (d.tasks t) { cancelled = true }) d.tasks }

-- The wait of two seconds for a task, and `task.cancel()` if it has not ended then.
unfoldable pub wind_up : Bool → Option ℕ → Desk → Desk
wind_up in_time none d = d
wind_up in_time (some t) d = if (d.tasks t).finished || in_time then d else cancel_task t d

abbrev pub stopped_report : String → String → Agent → Fields
stopped_report block_id goal a = field "type" (text "agent_state") (
    field "block_id" (text block_id) (
      field "state" (text "stopped") (
        field "summary" (text "Stopped.") (
          field "goal" (text goal) (
            field "goal_met" (flag false) (
              field "steps_used" (num a.steps_used)
                (field "steps_max" (num a.policy.max_steps) end)))))))

-- `_stop_block_agent` for one block, by its entry in the table. Whether its task ends within the two
-- seconds is up to the task.
unfoldable pub stop_entry : Bool → Bool → String → Option ℕ → Desk → Desk
unfolding find without_key detach_agent wind_up
stop_entry notify in_time block_id none d = d
stop_entry notify in_time block_id (some n) d =
    let taken = record d {
      agents = without_key block_id d.agents;
      agent_tasks = without_key block_id d.agent_tasks;
      loops = store n (detach_agent (d.loops n)) d.loops;
    } in
    let settled = wind_up in_time (find block_id d.agent_tasks) taken in
    if notify
    then tell (stopped_report block_id settled.team_goal (settled.loops n)) settled
    else settled

unfoldable pub stop_one : Bool → Bool → String → Desk → Desk
unfolding find stop_entry
stop_one notify in_time block_id d = stop_entry notify in_time block_id (find block_id d.agents) d

unfoldable pub stop_each : Bool → (String → Bool) → List String → Desk → Desk
unfolding stop_one
stop_each notify in_time [] d = d
stop_each notify in_time (b ∷ bs) d = stop_each notify in_time bs (stop_one notify (in_time b) b d)

unfoldable pub names : Table ℕ → List String
names [] = []
names ((b, n) ∷ d) = b ∷ names d

-- `_stop_block_agent`: one agent, or every agent where the id is empty.
unfoldable pub stop_block_agent : Bool → (String → Bool) → String → Desk → Desk
unfolding stop_each names
stop_block_agent notify in_time block_id d =
    stop_each notify in_time (if block_id == "" then names d.agents else block_id ∷ []) d

abbrev pub error_message : String → Fields
error_message line = field "type" (text "error") (field "message" (text line) end)

abbrev pub refusal : String → String
refusal block_name =
    "Block agents are part of the Agentic plan, so \""
    <> (block_name <> "\" cannot start one on this account.")

-- `_refuse_block_agent`
unfoldable pub refuse_block_agent : String → String → Desk → Desk
refuse_block_agent block_id block_name d =
    tell
      (field "type" (text "upgrade_required") (
        field "feature" (text "block_agent") (
          field "plan_required" (text "agentic")
            (field "block_id" (text block_id) (field "message" (text (refusal block_name)) end)))))
      (tell
        (field "type" (text "agent_state") (
          field "block_id" (text block_id) (
            field "state" (text "error") (
              field "summary" (text (refusal block_name)) (
                field "goal_met" (flag false)
                  (field "steps_used" (num 0) (field "steps_max" (num 0) end)))))))
        d)

-- `if data.get(key): self.x = data[key]`, and the same with `is not None`.
abbrev pub if_truthy : Value → Value → Value
if_truthy v old = if truthy v then v else old

abbrev pub if_not_none : Value → Value → Value
if_not_none null old = old
if_not_none v old = v

-- What a press tells the session before its agent starts.
unfoldable pub take_context : Fields → Desk → Desk
unfolding get_or truthy word
take_context msg d =
    let goal = word "goal" msg in
    record d {
      canvas_state = if_truthy (get_or "canvas_state" null msg) d.canvas_state;
      active_blocks = if_truthy (get_or "active_blocks" null msg) d.active_blocks;
      saved_library = if_not_none (get_or "saved_library" null msg) d.saved_library;
      team_goal = if not (goal == "") && d.team_goal == "" then goal else d.team_goal;
    }

-- `s or None`
abbrev pub text_or_none : String → Option String
text_or_none s = if s == "" then none else some s

-- The end of `_start_block_agent`: a new loop is registered and its run begins.
unfoldable pub register : String → String → Fields → Desk → Desk
unfolding new_loop from_client get_or to_str word strip lower launch assign
register block_id block_name msg d =
    let agent =
      new_loop block_id block_name (lower (word "block_type" msg))
        (from_client (get_or "autonomy" null msg)) (text_or_none (word "model" msg)) d.team_goal in
    launch block_id d.next_loop (to_str (get_or "instruction" (text "") msg)) (record d {
      loops = store d.next_loop agent d.loops;
      next_loop = suc d.next_loop;
      agents = assign block_id d.next_loop d.agents;
    })

-- `_start_block_agent`, with the answer of `may_run_block_agents`, and whether the task of an agent
-- that is replaced ends in time.
unfoldable pub start_block_agent : Bool → Bool → Fields → Desk → Desk
unfolding word refuse_block_agent take_context stop_block_agent register
start_block_agent allowed in_time msg d =
    let block_id = word "block_id" msg in
    let block_name = word "block_name" msg in
    if block_id == "" || block_name == ""
    then tell (error_message "start_block_agent needs a block") d
    else if not allowed
    then refuse_block_agent block_id block_name d
    else register block_id block_name msg
        (stop_block_agent false (λ b. in_time) block_id (take_context msg d))

-- `_resume_block_agent`
unfoldable pub resume_block_agent : ℕ → String → Desk → Desk
unfolding resume_budget launch
resume_block_agent n instruction d =
    let a = record (resume_budget (d.loops n)) { goal = d.team_goal } in
    launch a.block_id n instruction (record d { loops = store n a d.loops })

abbrev pub is_running : State → Bool
is_running State.running = true
is_running _ = false

-- What `_on_agent_user_message` does with an agent that there is.
unfoldable pub instruct : ℕ → String → Desk → Desk
unfolding resume_block_agent
instruct n line d =
    let aimed = record d {
      team_goal = if not (line == "") && d.team_goal == "" then line else d.team_goal;
    } in
    if is_running (d.loops n).state
    then tell
        (error_message (
          "\""
          <> ((d.loops n).block_name
              <> "\" is still working. Press Stop to interrupt it, or wait for it to finish and send this again.")))
        aimed
    else resume_block_agent n line aimed

-- `_on_agent_user_message`, for a message that answers no request.
unfoldable pub address : Option ℕ → String → Desk → Desk
unfolding instruct
address none line d =
    tell (error_message "That block has no active agent - press Agent on it first.") d
address (some n) line d = instruct n line d

unfoldable pub on_agent_user_message : Fields → Desk → Desk
unfolding word find address
on_agent_user_message msg d = address (find (word "block_id" msg) d.agents) (word "text" msg) d

-- A task ends, and its callback runs: `self._agent_tasks.pop(bid, None)`.
unfoldable pub task_over : ℕ → Desk → Desk
unfolding without_key
task_over t d = record d {
  tasks = store t (record (d.tasks t) { finished = true }) d.tasks;
  agent_tasks = without_key (d.tasks t).block_id d.agent_tasks;
}

-- What happens to the agents of a session, in the order of the steps: messages of the client, what a
-- loop makes of its state, and the end of a task.
pub data Step : Type 0 where
  press : (allowed in_time : Bool) → Fields → Step
  halt : (in_time : String → Bool) → Fields → Step
  instruction : Fields → Step
  progressed : (loop : ℕ) → State → (steps_used : ℕ) → Step
  over : (task : ℕ) → Step

unfoldable pub step : Step → Desk → Desk
unfolding start_block_agent stop_block_agent on_agent_user_message task_over get_or to_str
step (press allowed in_time msg) d = start_block_agent allowed in_time msg d
step (halt in_time msg) d =
    stop_block_agent true in_time (to_str (get_or "block_id" (text "") msg)) d
step (instruction msg) d = on_agent_user_message msg d
step (progressed n state steps_used) d = record d {
  loops = store n (record (d.loops n) { state = state; steps_used = steps_used }) d.loops;
}
step (over t) d = task_over t d

unfoldable pub steps : List Step → Desk → Desk
unfolding step
steps [] d = d
steps (x ∷ xs) d = steps xs (step x d)

-- `_stop_all_agents`, at the end of the session.
unfoldable pub stop_loops : Table ℕ → (ℕ → Agent) → ℕ → Agent
unfolding stop_agent
stop_loops [] loops = loops
stop_loops ((b, n) ∷ d) loops = stop_loops d (store n (stop_agent (loops n)) loops)

unfoldable pub wind_up_all : (String → Bool) → Table ℕ → Desk → Desk
unfolding wind_up
wind_up_all in_time [] d = d
wind_up_all in_time ((b, t) ∷ ts) d = wind_up_all in_time ts (wind_up (in_time b) (some t) d)

unfoldable pub stop_all_agents : (String → Bool) → Desk → Desk
unfolding stop_loops wind_up_all
stop_all_agents in_time d =
    wind_up_all in_time d.agent_tasks
      (record d { loops = stop_loops d.agents d.loops; agents = []; agent_tasks = [] })
