-- ===== src/Session/Requests/Waiting.antt =====
-- What a message does to a request that is waited for, in app/modules/session/router.py.
use grafux_orchestrator.Prelude.{
  ℕ, String, ◌==◌, ◌≡◌, refl, ◌⊎◌, inl, inr, Bool, true, false, ◌||◌, some, List, [], ◌∷◌, arith,
  eq_iff, eq_refl, strip, one_of, Bool-cases, if◌then◌else◌, find, holds, find-assign, holds-assign,
}
use mathlib.Core.Path.{subst}
use mathlib.Core.Bool.{false≢true}
use grafux_orchestrator.Python.{
  null, text, flag, Fields, end, field, to_str, get_or, Outcome, ok, raised, cancelled,
}
use grafux_orchestrator.Session.Requests.{
  Requests, set_result, resolve_pending, failed_with, fail_all, fail_pending, find_or_blank,
  note_status, note_progress, text_or, dict_or_empty, action_payload, receive_result, receive,
  outlast, Arrival, message, lost, arrives_at, take_in, event_set,
}

-- The request is in the map, was last heard of at `seen`, and its event is set or not.
pub record IsAwaited (id : String) (seen : ℕ) (set : Bool) (s : Requests) : Type 0 where
  pub listed : one_of id s.pending ≡ true
  pub last : find id s.last_seen ≡ some seen
  pub event : event_set (find id s.progress) ≡ set

-- What the handling of a message may do to a request last heard of at `seen`, at the time `now`.
pub data Effect (id : String) (seen now : ℕ) (s : Requests) : Type 0 where
  answered : holds id s.answers ≡ true → Effect id seen now s
  moved : IsAwaited id now true s → Effect id seen now s
  still : IsAwaited id seen false s → Effect id seen now s

pub either {ℓ κ} :
    {A : Type ℓ} (P : A → Type κ) (test : Bool) (x y : A) → P x → P y → P (if test then x else y)
either P true x y hx hy = hx
either P false x y hx hy = hy

pub either_by {ℓ κ} :
    {A : Type ℓ} (P : A → Type κ) (test : Bool) (x y : A)
    → (test ≡ true → P x)
    → (test ≡ false → P y)
    → P (if test then x else y)
either_by P true x y hx hy = hx refl
either_by P false x y hx hy = hy refl

module _ (id : String) (seen : ℕ) where
  set_result-Awaited :
      (other : String) (payload : Fields) (s : Requests)
      → IsAwaited id seen false s
      → IsAwaited id seen false (set_result other payload s)
  unfolding set_result
  set_result-Awaited other payload s h =
      either (IsAwaited id seen false) (holds other s.answers) s _ h
        (record { listed = h.listed; last = h.last; event = h.event })

  resolve_pending-Awaited :
      (other : String) (payload : Fields) (s : Requests)
      → IsAwaited id seen false s
      → IsAwaited id seen false (resolve_pending other payload s)
  unfolding resolve_pending
  resolve_pending-Awaited other payload s h =
      either (IsAwaited id seen false) (one_of other s.pending) _ s
        (set_result-Awaited other payload s h) h

  -- The rest of `_note_progress` leaves the maps that a wait reads alone.
  note_status-Effect :
      (now : ℕ) (other status : String) (s : Requests)
      → Effect id seen now s
      → Effect id seen now (note_status other status s)
  unfolding note_status
  note_status-Effect now other status s h =
      either (Effect id seen now) (status == "" || status == find_or_blank other s.request_status) s
        _ h
        (elim h [
          | answered e ↦ answered e
          | moved w ↦ moved (record { listed = w.listed; last = w.last; event = w.event })
          | still w ↦ still (record { listed = w.listed; last = w.last; event = w.event })
        ])

  note_progress-Effect :
      (now : ℕ) (other status : String) (s : Requests)
      → IsAwaited id seen false s
      → Effect id seen now (note_progress now other status s)
  unfolding note_progress
  note_progress-Effect now other status s h =
      either (Effect id seen now) (holds other s.progress) _ s
        (note_status-Effect now other (strip status) _ (elim (Bool-cases (id == other)) [
          | inl e ↦ moved (record {
            listed = h.listed;
            last = rw (find-assign, e) refl;
            event = rw (find-assign, e) refl;
          })
          | inr e ↦ still (record {
            listed = h.listed;
            last = rw (find-assign, e) h.last;
            event = rw (find-assign, e) h.event;
          })
        ]))
        (still h)

-- A future that is done stays done, and the disconnection makes each one done.
module _ (id : String) where
  set_result-holds_self :
      (payload : Fields) (s : Requests) → holds id (set_result id payload s).answers ≡ true
  unfolding set_result
  set_result-holds_self payload s = elim (Bool-cases (holds id s.answers)) [
    | inl e ↦ rw (e, e) refl
    | inr e ↦ rw e (rw (holds-assign, eq_refl) refl)
  ]

  set_result-holds :
      (other : String) (payload : Fields) (s : Requests)
      → holds id s.answers ≡ true
      → holds id (set_result other payload s).answers ≡ true
  unfolding set_result
  set_result-holds other payload s h =
      either (λ t. holds id t.answers ≡ true) (holds other s.answers) s _ h
        (rw (holds-assign, h) (ground arith))

  fail_all-holds :
      (reason : String) (ids : List String) (s : Requests)
      → (holds id s.answers ≡ true) ⊎ (one_of id ids ≡ true)
      → holds id (fail_all reason ids s).answers ≡ true
  unfolding fail_all
  fail_all-holds reason [] s (inl h) = h
  fail_all-holds reason [] s (inr h) = absurd (false≢true h)
  fail_all-holds reason (other ∷ ids) s (inl h) =
      fail_all-holds reason ids _ (inl (set_result-holds other (failed_with reason) s h))
  fail_all-holds reason (other ∷ ids) s (inr h) = elim (Bool-cases (id == other)) [
    | inl e ↦ fail_all-holds reason ids _ (
        inl (
          subst (λ x. holds id (set_result x (failed_with reason) s).answers ≡ true)
            ((eq_iff id other).0 e) (set_result-holds_self (failed_with reason) s)))
    | inr e ↦ fail_all-holds reason ids _ (inr (rw e at h))
  ]

module _ (id : String) (seen : ℕ) where
  fail_pending-Effect :
      (now : ℕ) (s : Requests)
      → IsAwaited id seen false s
      → Effect id seen now (fail_pending "the client disconnected" s)
  unfolding fail_pending
  fail_pending-Effect now s h =
      answered (fail_all-holds id "the client disconnected" s.pending s (inr h.listed))

  receive_result-Effect :
      (now : ℕ) (other : String) (msg : Fields) (observation : Outcome Fields) (s : Requests)
      → IsAwaited id seen false s
      → Effect id seen now (outlast (receive_result other msg observation s) s)
  unfolding receive_result outlast
  receive_result-Effect now other msg (ok observation) s h =
      still (resolve_pending-Awaited id seen other (action_payload msg observation) s h)
  receive_result-Effect now other msg (raised e) s h = fail_pending-Effect now s h
  receive_result-Effect now other msg cancelled s h = fail_pending-Effect now s h

  receive-Effect :
      (now : ℕ) (msg : Fields) (s : Requests)
      → IsAwaited id seen false s
      → Effect id seen now (outlast (receive now msg s) s)
  unfolding receive outlast
  receive-Effect now msg s h =
      let kind = text_or "type" "" msg in
      let other = text_or "request_id" "" msg in
      let asked = strip (to_str (get_or "request_id" (text "") msg)) in
      let answer = strip (to_str (get_or "text" (text "") msg)) in
      let E : Outcome Requests → Type 0 = λ r. Effect id seen now (outlast r s) in
      either E (kind == "port_content") _ _ (still (resolve_pending-Awaited id seen other _ s h)) (
        either E (kind == "agent_action_result") _ _
          (either E (to_str (get_or "status" (text "done") msg) == "started") _ _
            (note_progress-Effect id seen now other (to_str (get_or "detail" (text "") msg)) s h)
            (receive_result-Effect now other msg (dict_or_empty (get_or "observation" null msg)) s
              h))
          (either E (kind == "agent_action_progress") _ _
            (note_progress-Effect id seen now other (to_str (get_or "sub_status" (text "") msg)) s
              h)
            (either E (kind == "agent_user_message") _ _
              (either E (asked == "") _ _ (still h) (
                still (
                  resolve_pending-Awaited id seen asked
                    (field "ok" (flag true) (field "answer" (text answer) end)) s h)))
              (still h))))

  -- A message leaves a request that is waited for as it was, or nudges it, or makes it done.
  pub take_in-Effect :
      (a : Arrival) (s : Requests)
      → IsAwaited id seen false s
      → Effect id seen (arrives_at a) (take_in a s)
  unfolding take_in
  take_in-Effect (message at msg) s h = receive-Effect at msg s h
  take_in-Effect (lost at) s h = fail_pending-Effect at s h
