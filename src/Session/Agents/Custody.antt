-- ===== src/Session/Agents/Custody.antt =====
-- Who may run, and who may speak: an invariant of the agents of a session, of
-- app/modules/session/router.py.
use grafux_orchestrator.Prelude.{
  ℕ, suc, ◌<◌, String, ◌==◌, ◌≡◌, ◌≢◌, refl, sym, ap, ◌∙◌, ◌⊎◌, inl, inr, Bool, true, false, ◌||◌,
  Option, none, some, List, [], ◌∷◌, arith, eq_iff, eq_refl, ◌=ℕ◌, Bool-cases, Table, find, assign,
  without_key, find-assign, find-without_key, find-without_key_ne,
}
use mathlib.Core.Path.{subst}
use grafux_orchestrator.BlockAgent.Data.{Agent}
use grafux_orchestrator.BlockAgent.Rules.{detach_agent}
use grafux_orchestrator.Session.Agents.{
  Task, Desk, store, launch, wind_up, stop_entry, stop_one, stop_each,
}
use grafux_orchestrator.Session.Requests.Waiting.{either}

-- Every registered loop is that of its block, which was granted; every other loop was detached, so
-- that it says nothing more; and every run is for a block that was granted.
pub record Custody (granted : String → Bool) (agents : Table ℕ) (loops : ℕ → Agent) (next_loop : ℕ)
    (tasks : ℕ → Task) (next_task : ℕ) : Type 0 where
  pub registered :
      (b : String) (n : ℕ)
      → find b agents ≡ some n
      → (n < next_loop) × ((loops n).block_id ≡ b) × (granted b ≡ true)
  pub silenced :
      (n : ℕ)
      → n < next_loop
      → (find (loops n).block_id agents ≡ some n) ⊎ ((loops n).detached ≡ true)
  pub launched : (t : ℕ) → t < next_task → granted (tasks t).block_id ≡ true

abbrev pub HasCustody : (String → Bool) → Desk → Type 0
HasCustody granted d = Custody granted d.agents d.loops d.next_loop d.tasks d.next_task

module _ {ℓ κ} {A : Type ℓ} {B : Type κ} (of : A → B) where
  -- Storing an object that agrees with the old one in a field.
  pub store_same :
      (n m : ℕ) (a : A) (heap : ℕ → A) → of a ≡ of (heap n) → of (store n a heap m) ≡ of (heap m)
  store_same n m a heap h = elim (Bool-cases (m =ℕ n)) [
    | inl e ↦ let same : m ≡ n = ground arith in rw e (h ∙ ap (λ k. of (heap k)) (sym same))
    | inr e ↦ rw e refl
  ]

store_self {ℓ} : {A : Type ℓ} (n : ℕ) (a : A) (heap : ℕ → A) → store n a heap n ≡ a
store_self n a heap = ground arith

store_other {ℓ} :
    {A : Type ℓ} (n m : ℕ) (a : A) (heap : ℕ → A) → (m =ℕ n) ≡ false → store n a heap m ≡ heap m
store_other n m a heap h = rw h refl

not_kept :
    (c b : String) (m : ℕ) (agents : Table ℕ)
    → (c == b) ≡ true
    → find c (without_key b agents) ≢ some m
not_kept c b m agents e held =
    let here : find b (without_key b agents) ≡ some m =
      subst (λ x. find x (without_key b agents) ≡ some m) ((eq_iff c b).0 e) held in
    let gone = find-without_key b agents in cc

one_entry :
    (c b : String) (m n : ℕ) (agents : Table ℕ)
    → (c == b) ≡ true
    → find c agents ≡ some m
    → find b agents ≡ some n
    → (m =ℕ n) ≢ false
one_entry c b m n agents same held found e =
    let here : find b agents ≡ some m =
      subst (λ x. find x agents ≡ some m) ((eq_iff c b).0 same) held in
    let equal : m ≡ n = cc in ground arith

taken_entry :
    (c b : String) (m : ℕ) (agents : Table ℕ)
    → (c == b) ≡ true
    → find c agents ≡ some m
    → find b agents ≢ none
taken_entry c b m agents same held free =
    let here : find b agents ≡ some m =
      subst (λ x. find x agents ≡ some m) ((eq_iff c b).0 same) held in
    cc

module _ (granted : String → Bool) where
  pub launch-Custody :
      (b : String) (n : ℕ) (line : String) (d : Desk)
      → granted b ≡ true
      → HasCustody granted d
      → HasCustody granted (launch b n line d)
  unfolding launch
  launch-Custody b n line d g h = record {
    registered = h.registered;
    silenced = h.silenced;
    launched = λ t le. (elim (Bool-cases (t =ℕ d.next_task)) [
      | inl e ↦ rw e g
      | inr e ↦ rw e (h.launched t (ground arith))
    ]);
  }

  wind_up-Custody :
      (in_time : Bool) (task : Option ℕ) (d : Desk)
      → HasCustody granted d
      → HasCustody granted (wind_up in_time task d)
  unfolding wind_up
  wind_up-Custody in_time none d h = h
  wind_up-Custody in_time (some t) d h =
      either (HasCustody granted) ((d.tasks t).finished || in_time) d _ h (record {
        registered = h.registered;
        silenced = h.silenced;
        launched = λ u le.
            rw
              (store_same (λ (x : Task). x.block_id) t u (record (d.tasks t) { cancelled = true })
                d.tasks refl)
              (h.launched u le);
      })

  -- The loop of a block is detached and taken out of the table.
  taken :
      (b : String) (n : ℕ) (agents : Table ℕ) (loops : ℕ → Agent) (next_loop : ℕ) (tasks : ℕ → Task)
      (next_task : ℕ)
      → find b agents ≡ some n
      → Custody granted agents loops next_loop tasks next_task
      → Custody granted
          (without_key b agents)
          (store n (detach_agent (loops n)) loops)
          next_loop
          tasks
          next_task
  unfolding detach_agent
  taken b n agents loops next_loop tasks next_task found h = record {
    registered = λ c m held. (elim (Bool-cases (c == b)) [
      | inl e ↦ absurd (not_kept c b m agents e held)
      | inr e ↦
          let old = h.registered c m (sym (find-without_key_ne c b agents e) ∙ held) in
          (
            old.0,
            store_same (λ (a : Agent). a.block_id) n m (detach_agent (loops n)) loops refl ∙ old.1,
            old.2,
          )
    ]);
    silenced = λ m le. (elim (Bool-cases (m =ℕ n)) [
      | inl e ↦ inr (rw e refl)
      | inr e ↦ rw e (elim (h.silenced m le) [
        | inr cut ↦ inr cut
        | inl held ↦ (elim (Bool-cases ((loops m).block_id == b)) [
          | inl same ↦ absurd (one_entry ((loops m).block_id) b m n agents same held found e)
          | inr other ↦ inl (find-without_key_ne _ b agents other ∙ held)
        ])
      ])
    ]);
    launched = h.launched;
  }

  stop_entry-Custody :
      (notify in_time : Bool) (b : String) (o : Option ℕ) (d : Desk)
      → find b d.agents ≡ o
      → HasCustody granted d
      → HasCustody granted (stop_entry notify in_time b o d)
  unfolding stop_entry
  stop_entry-Custody notify in_time b none d e h = h
  stop_entry-Custody notify in_time b (some n) d e h =
      let out : Desk = record d {
        agents = without_key b d.agents;
        agent_tasks = without_key b d.agent_tasks;
        loops = store n (detach_agent (d.loops n)) d.loops;
      } in
      let settled = wind_up in_time (find b d.agent_tasks) out in
      let kept =
        wind_up-Custody in_time (find b d.agent_tasks) out
          (taken b n d.agents d.loops d.next_loop d.tasks d.next_task e h) in
      either (HasCustody granted) notify _ settled kept kept

  pub stop_one-Custody :
      (notify in_time : Bool) (b : String) (d : Desk)
      → HasCustody granted d
      → HasCustody granted (stop_one notify in_time b d)
  unfolding stop_one
  stop_one-Custody notify in_time b d h =
      stop_entry-Custody notify in_time b (find b d.agents) d refl h

  pub stop_each-Custody :
      (notify : Bool) (in_time : String → Bool) (bs : List String) (d : Desk)
      → HasCustody granted d
      → HasCustody granted (stop_each notify in_time bs d)
  unfolding stop_each
  stop_each-Custody notify in_time [] d h = h
  stop_each-Custody notify in_time (b ∷ bs) d h =
      stop_each-Custody notify in_time bs _ (stop_one-Custody notify (in_time b) b d h)

  -- A new loop takes the free entry of its block.
  pub added :
      (b : String) (a : Agent) (agents : Table ℕ) (loops : ℕ → Agent) (next_loop : ℕ)
      (tasks : ℕ → Task) (next_task : ℕ)
      → a.block_id ≡ b
      → granted b ≡ true
      → find b agents ≡ none
      → Custody granted agents loops next_loop tasks next_task
      → Custody granted
          (assign b next_loop agents)
          (store next_loop a loops)
          (suc next_loop)
          tasks
          next_task
  added b a agents loops next_loop tasks next_task own g free h = record {
    registered = λ c n held. (elim (Bool-cases (c == b)) [
      | inl e ↦
          let entry : some next_loop ≡ some n =
            sym (rw (find-assign c b next_loop agents, e) refl) ∙ held in
          let equal : next_loop ≡ n = cc in
          let block : b ≡ c = sym ((eq_iff c b).0 e) in
          (
            omega arith,
            subst (λ m. (store next_loop a loops m).block_id ≡ c) equal
                (rw (store_self next_loop a loops) (own ∙ block)),
            subst (λ x. granted x ≡ true) block g,
          )
      | inr e ↦
          let old = h.registered c n (rw (find-assign c b next_loop agents, e) at held) in
          (
            omega (arith, old.0),
            rw (store_other next_loop n a loops (ground (arith, old.0))) old.1,
            old.2,
          )
    ]);
    silenced = λ n le. (elim (Bool-cases (n =ℕ next_loop)) [
      | inl e ↦
          let equal : next_loop ≡ n = ground arith in
          inl (
            subst
              (λ m. find (store next_loop a loops m).block_id (assign b next_loop agents) ≡ some m)
              equal (rw (store_self next_loop a loops, own) (rw (find-assign, eq_refl) refl)))
      | inr e ↦ rw e (elim (h.silenced n (ground arith)) [
        | inr cut ↦ inr cut
        | inl held ↦ (elim (Bool-cases ((loops n).block_id == b)) [
          | inl same ↦ absurd (taken_entry (loops n).block_id b n agents same held free)
          | inr other ↦ inl (rw (find-assign, other) held)
        ])
      ])
    ]);
    launched = h.launched;
  }

  -- A loop changes in fields that are neither its block nor its silence.
  pub changed :
      (n : ℕ) (a : Agent) (d : Desk)
      → a.block_id ≡ (d.loops n).block_id
      → a.detached ≡ (d.loops n).detached
      → HasCustody granted d
      → HasCustody granted (record d { loops = store n a d.loops })
  changed n a d own mute h = record {
    registered = λ c m held.
        let old = h.registered c m held in
        (old.0, store_same (λ (x : Agent). x.block_id) n m a d.loops own ∙ old.1, old.2);
    silenced = λ m le. (elim (h.silenced m le) [
      | inr cut ↦ inr (store_same (λ (x : Agent). x.detached) n m a d.loops mute ∙ cut)
      | inl held ↦ inl (rw (store_same (λ (x : Agent). x.block_id) n m a d.loops own) held)
    ]);
    launched = h.launched;
  }
