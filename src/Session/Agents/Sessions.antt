-- ===== src/Session/Agents/Sessions.antt =====
-- The invariant of the agents over every course of a session, of app/modules/session/router.py.
use grafux_orchestrator.Prelude.{
  ℕ, suc, ◌<◌, String, ◌==◌, ◌≡◌, ◌≢◌, refl, sym, ◌⊎◌, Bool, true, false, not, ◌&&◌, ◌||◌, Option,
  none, some, List, [], ◌∷◌, All, arith, eq_refl, if◌then◌else◌, lower, Table, find, assign,
  find-without_key,
}
use mathlib.Core.Path.{subst}
use mathlib.Core.Bool.{false≢true}
use grafux_orchestrator.Python.{text, null, Fields, word, get_or, to_str}
use grafux_orchestrator.BlockAgent.Policy.{from_client}
use grafux_orchestrator.BlockAgent.Rules.{resume_budget}
use grafux_orchestrator.Session.Agents.{
  Task, Desk, store, wind_up, stop_entry, stop_one, stop_each, names, stop_block_agent,
  refuse_block_agent, take_context, register, start_block_agent, resume_block_agent, is_running,
  instruct, address, on_agent_user_message, task_over, Step, press, halt, instruction, progressed,
  over, step, steps, new_loop, text_or_none,
}
use grafux_orchestrator.Session.Requests.Waiting.{either, either_by}
use grafux_orchestrator.Session.Agents.Custody.{
  HasCustody, launch-Custody, stop_each-Custody, stop_one-Custody, added, changed, store_same,
}

-- The entry of the block is free once its agent was stopped.
wind_up_agents :
    (in_time : Bool) (task : Option ℕ) (d : Desk) → (wind_up in_time task d).agents ≡ d.agents
unfolding wind_up
wind_up_agents in_time none d = refl
wind_up_agents in_time (some t) d =
    either (λ (x : Desk). x.agents ≡ d.agents) ((d.tasks t).finished || in_time) d _ refl refl

stop_entry-free :
    (in_time : Bool) (b : String) (o : Option ℕ) (d : Desk)
    → find b d.agents ≡ o
    → find b (stop_entry false in_time b o d).agents ≡ none
unfolding stop_entry
stop_entry-free in_time b none d e = e
stop_entry-free in_time b (some n) d e = rw (wind_up_agents in_time) (find-without_key b d.agents)

stop_named :
    (in_time : Bool) (b : String) (d : Desk)
    → (b == "") ≡ false
    → stop_block_agent false (λ x. in_time) b d ≡ stop_one false in_time b d
unfolding stop_block_agent stop_each
stop_named in_time b d own = rw own refl

-- A press that is allowed is for a block that is granted.
abbrev Grants : (String → Bool) → Step → Type 0
Grants granted (press allowed in_time msg) = allowed ≡ true → granted (word "block_id" msg) ≡ true
Grants granted x = Unit

module _ (granted : String → Bool) where
  register-Custody :
      (b name : String) (msg : Fields) (d : Desk)
      → granted b ≡ true
      → find b d.agents ≡ none
      → HasCustody granted d
      → HasCustody granted (register b name msg d)
  unfolding register
  register-Custody b name msg d g free h =
      let agent =
        new_loop b name (lower (word "block_type" msg)) (from_client (get_or "autonomy" null msg))
          (text_or_none (word "model" msg)) d.team_goal in
      launch-Custody granted b d.next_loop (to_str (get_or "instruction" (text "") msg))
        (record d {
          loops = store d.next_loop agent d.loops;
          next_loop = suc d.next_loop;
          agents = assign b d.next_loop d.agents;
        })
        g (added granted b agent d.agents d.loops d.next_loop d.tasks d.next_task refl g free h)

  resume-Custody :
      (n : ℕ) (b line : String) (d : Desk)
      → find b d.agents ≡ some n
      → HasCustody granted d
      → HasCustody granted (resume_block_agent n line d)
  unfolding resume_block_agent
  resume-Custody n b line d found h =
      let a = record (resume_budget (d.loops n)) { goal = d.team_goal } in
      launch-Custody granted a.block_id n line (record d { loops = store n a d.loops })
        (rw (h.registered b n found).1 (h.registered b n found).2)
        (changed granted n a d refl refl h)

  address-Custody :
      (b line : String) (o : Option ℕ) (d : Desk)
      → find b d.agents ≡ o
      → HasCustody granted d
      → HasCustody granted (address o line d)
  unfolding address instruct
  address-Custody b line none d e h = h
  address-Custody b line (some n) d e h =
      let aimed : Desk = record d {
        team_goal = if not (line == "") && d.team_goal == "" then line else d.team_goal;
      } in
      either (HasCustody granted) (is_running (d.loops n).state) _ (resume_block_agent n line aimed)
        h (resume-Custody n b line aimed e h)

  start-Custody :
      (allowed in_time : Bool) (msg : Fields) (d : Desk)
      → (allowed ≡ true → granted (word "block_id" msg) ≡ true)
      → HasCustody granted d
      → HasCustody granted (start_block_agent allowed in_time msg d)
  unfolding start_block_agent refuse_block_agent take_context stop_one
  start-Custody allowed in_time msg d g h =
      let b = word "block_id" msg in
      let name = word "block_name" msg in
      let P = HasCustody granted in
      either_by P (b == "" || name == "") _ _ (λ _. h)
        (λ named.
          either_by P (not allowed) _ _ (λ _. h)
            (λ permitted.
              let d' = take_context msg d in
              let own : (b == "") ≡ false = ground arith in
              let fine : allowed ≡ true = ground arith in
              let stopped = stop_one false in_time b d' in
              subst (λ x. P (register b name msg x)) (sym (stop_named in_time b d' own))
                (register-Custody b name msg stopped (g fine)
                  (stop_entry-free in_time b (find b d'.agents) d' refl)
                  (stop_one-Custody granted false in_time b d' h))))

  step-Custody :
      (x : Step) (d : Desk)
      → Grants granted x
      → HasCustody granted d
      → HasCustody granted (step x d)
  unfolding step stop_block_agent on_agent_user_message task_over
  step-Custody (press allowed in_time msg) d g h = start-Custody allowed in_time msg d g h
  step-Custody (halt in_time msg) d g h =
      let b = to_str (get_or "block_id" (text "") msg) in
      stop_each-Custody granted true in_time (if b == "" then names d.agents else b ∷ []) d h
  step-Custody (instruction msg) d g h =
      address-Custody (word "block_id" msg) (word "text" msg) (find (word "block_id" msg) d.agents)
        d refl h
  step-Custody (progressed n state steps_used) d g h =
      changed granted n (record (d.loops n) { state = state; steps_used = steps_used }) d refl refl
        h
  step-Custody (over t) d g h = record {
    registered = h.registered;
    silenced = h.silenced;
    launched = λ u le.
        rw
          (store_same (λ (x : Task). x.block_id) t u (record (d.tasks t) { finished = true })
            d.tasks refl)
          (h.launched u le);
  }

  steps-Custody :
      (xs : List Step) (d : Desk)
      → All (Grants granted) xs
      → HasCustody granted d
      → HasCustody granted (steps xs d)
  unfolding steps
  steps-Custody [] d g h = h
  steps-Custody (x ∷ xs) d g h = steps-Custody xs (step x d) g.1 (step-Custody x d g.0 h)

-- A session without agents.
pub record IsIdle (d : Desk) : Type 0 where
  pub agents : d.agents ≡ []
  pub next_loop : d.next_loop ≡ 0
  pub next_task : d.next_task ≡ 0

nowhere : (b : String) (n : ℕ) (agents : Table ℕ) → agents ≡ [] → find b agents ≢ some n
unfolding find
nowhere b n [] e held = cc
nowhere b n (x ∷ agents) e held = cc

IsIdle-Custody : (granted : String → Bool) (d : Desk) → IsIdle d → HasCustody granted d
IsIdle-Custody granted d idle = record {
  registered = λ b n held. absurd (nowhere b n d.agents idle.agents held);
  silenced = λ n le. absurd (omega (arith, idle.next_loop));
  launched = λ t le. absurd (omega (arith, idle.next_task));
}

-- The block was granted an agent in one of the steps.
abbrev pub was_granted : List Step → String → Bool
was_granted [] b = false
was_granted (press true in_time msg ∷ xs) b = b == word "block_id" msg || was_granted xs b
was_granted (x ∷ xs) b = was_granted xs b

was_granted-later :
    (x : Step) (xs : List Step) (b : String)
    → was_granted xs b ≡ true
    → was_granted (x ∷ xs) b ≡ true
was_granted-later (press true in_time msg) xs b h = ground arith
was_granted-later (press false in_time msg) xs b h = h
was_granted-later (halt in_time msg) xs b h = h
was_granted-later (instruction msg) xs b h = h
was_granted-later (progressed n state steps_used) xs b h = h
was_granted-later (over t) xs b h = h

Grants-more :
    (less more : String → Bool) (x : Step)
    → ((b : String) → less b ≡ true → more b ≡ true)
    → Grants less x
    → Grants more x
Grants-more less more (press allowed in_time msg) le h = λ e. le (word "block_id" msg) (h e)
Grants-more less more (halt in_time msg) le h = tt
Grants-more less more (instruction msg) le h = tt
Grants-more less more (progressed n state steps_used) le h = tt
Grants-more less more (over t) le h = tt

all_Grants_more :
    (less more : String → Bool) (xs : List Step)
    → ((b : String) → less b ≡ true → more b ≡ true)
    → All (Grants less) xs
    → All (Grants more) xs
all_Grants_more less more [] le h = tt
all_Grants_more less more (x ∷ xs) le h =
    (Grants-more less more x le h.0, all_Grants_more less more xs le h.1)

own_grant : (x : Step) (xs : List Step) → Grants (was_granted (x ∷ xs)) x
own_grant (press true in_time msg) xs = λ e. rw eq_refl refl
own_grant (press false in_time msg) xs = λ e. absurd (false≢true e)
own_grant (halt in_time msg) xs = tt
own_grant (instruction msg) xs = tt
own_grant (progressed n state steps_used) xs = tt
own_grant (over t) xs = tt

was_granted-Grants : (xs : List Step) → All (Grants (was_granted xs)) xs
was_granted-Grants [] = tt
was_granted-Grants (x ∷ xs) = (
  own_grant x xs,
  all_Grants_more (was_granted xs) (was_granted (x ∷ xs)) xs (was_granted-later x xs)
      (was_granted-Grants xs),
)

-- Whatever the client sends, whenever tasks end and however the loops fare, from a session without
-- agents: an agent is registered for a block, and a run is started for it, only if `may_run_block_agents`
-- allowed it at some press for that block.
pub steps-granted :
    (xs : List Step) (d : Desk)
    → IsIdle d
    → let e = steps xs d in
      ((b : String) (n : ℕ) → find b e.agents ≡ some n → was_granted xs b ≡ true)
      × ((t : ℕ) → t < e.next_task → was_granted xs (e.tasks t).block_id ≡ true)
steps-granted xs d idle =
    let h = steps-Custody (was_granted xs) xs d (was_granted-Grants xs) (IsIdle-Custody _ d idle) in
    (λ b n held. (h.registered b n held).2, h.launched)

-- In the same courses, each loop that was ever made is the registered one of its block, or was
-- detached: at most one loop speaks for a block.
pub steps-silenced :
    (xs : List Step) (d : Desk) (n : ℕ)
    → IsIdle d
    → n < (steps xs d).next_loop
    → let e = steps xs d in
      (find (e.loops n).block_id e.agents ≡ some n) ⊎ ((e.loops n).detached ≡ true)
steps-silenced xs d n idle le =
    (steps-Custody (was_granted xs) xs d (was_granted-Grants xs) (IsIdle-Custody _ d idle)).silenced
      n le
