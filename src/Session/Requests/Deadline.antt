-- ===== src/Session/Requests/Deadline.antt =====
-- `_await_client` of app/modules/session/router.py ends, in time.
use grafux_orchestrator.Prelude.{
  ℕ, zero, suc, ◌+◌, ◌-◌, ◌≤◌, min, String, ◌≡◌, refl, sym, ◌∙◌, ◌⊎◌, inl, inr, Bool, true, false,
  Option, none, some, List, [], ◌∷◌, length, arith, eq_refl, leb, leb→le, one_of, if◌then◌else◌,
  find, holds, assign, set_default, find-assign, find-set_default, find-without_key, holds-some,
  ◌≢◌,
}
use mathlib.Core.Bool.{false≢true}
use grafux_orchestrator.Python.{Fields}
use grafux_orchestrator.Session.Requests.{
  Requests, without, Arrival, arrives_at, take_in, event_set, Woken, done, nudged, lapsed, Pause,
  sleep, wait, forget, Verdict, timed_out, key_error, Ended, Patience, no_answer, stop_waiting,
  verdict_of, resume, await_from, await_client,
}
use grafux_orchestrator.Session.Requests.Waiting.{
  IsAwaited, Effect, answered, moved, still, either_by, take_in-Effect,
}

-- How a wait until `until`, with `n` messages to come, may end for a request last heard of at `seen`.
abbrev Wakes : String → ℕ → ℕ → ℕ → Woken → ℕ → List Arrival → Requests → Type 0
Wakes id seen until n done at rest t = (at ≤ until) × (holds id t.answers ≡ true)
Wakes id seen until n nudged at rest t =
    (at ≤ until) × IsAwaited id at true t × (suc (length rest) ≤ n)
Wakes id seen until n lapsed at rest t = (at ≡ until) × IsAwaited id seen false t

abbrev WakesBy : String → ℕ → ℕ → ℕ → Pause → Type 0
WakesBy id seen until n p = Wakes id seen until n p.woken p.at p.rest p.state

module _ (id : String) (seen until : ℕ) where
  more :
      (n : ℕ) (woken : Woken) (at : ℕ) (rest : List Arrival) (t : Requests)
      → Wakes id seen until n woken at rest t
      → Wakes id seen until (suc n) woken at rest t
  more n done at rest t h = h
  more n nudged at rest t h = (h.0, h.1, omega (arith, h.2))
  more n lapsed at rest t h = h

  woken_by :
      (a : Arrival) (arrivals : List Arrival) (t : Requests) (later : Pause)
      → arrives_at a ≤ until
      → Effect id seen (arrives_at a) t
      → (IsAwaited id seen false t → WakesBy id seen until (suc (length arrivals)) later)
      → WakesBy id seen until (suc (length arrivals)) (
          if holds id t.answers
          then record { woken = done; at = arrives_at a; rest = arrivals; state = t }
          else if event_set (find id t.progress)
          then record { woken = nudged; at = arrives_at a; rest = arrivals; state = t }
          else later)
  woken_by a arrivals t later early effect go =
      let P = WakesBy id seen until (suc (length arrivals)) in
      either_by P (holds id t.answers) _ _ (λ e. (early, e))
        (λ open_still.
          either_by P (event_set (find id t.progress)) _ _
            (λ e. (elim effect [
              | answered x ↦ absurd (false≢true (sym open_still ∙ x))
              | moved w ↦ (early, w, omega arith)
              | still w ↦ absurd (false≢true (sym w.event ∙ e))
            ]))
            (λ e. (elim effect [
              | answered x ↦ absurd (false≢true (sym open_still ∙ x))
              | moved w ↦ absurd (false≢true (sym e ∙ w.event))
              | still w ↦ go w
            ])))

  sleep-Wakes :
      (arrivals : List Arrival) (s : Requests)
      → IsAwaited id seen false s
      → WakesBy id seen until (length arrivals) (sleep id until arrivals s)
  unfolding sleep
  sleep-Wakes [] s h = (refl, h)
  sleep-Wakes (a ∷ arrivals) s h =
      let t = take_in a s in
      let later = sleep id until arrivals t in
      either_by (WakesBy id seen until (suc (length arrivals))) (leb (arrives_at a) until) _ _
        (λ e.
          woken_by a arrivals t later (leb→le (arrives_at a) until e) (take_in-Effect id seen a s h)
            (λ w.
              more (length arrivals) later.woken later.at later.rest later.state
                (sleep-Wakes arrivals t w)))
        (λ e. (refl, h))

-- The wait of one pass.
wait-Wakes :
    (id : String) (seen now timeout : ℕ) (arrivals : List Arrival) (s : Requests)
    → IsAwaited id seen false s
    → WakesBy id seen (now + timeout) (length arrivals) (wait id now timeout arrivals s)
unfolding wait
wait-Wakes id seen now timeout arrivals s h =
    either_by (WakesBy id seen (now + timeout) (length arrivals)) (holds id s.answers) _ _
      (λ e. (omega arith, e)) (λ e. sleep-Wakes id seen (now + timeout) arrivals s h)

abbrev pub IsNoKeyError : Verdict → Type 0
IsNoKeyError key_error = ⊥
IsNoKeyError v = Unit

-- None of the session's maps has the request any more.
pub record IsForgotten (id : String) (s : Requests) : Type 0 where
  pub pending : one_of id s.pending ≡ false
  pub progress : find id s.progress ≡ none
  pub last_seen : find id s.last_seen ≡ none
  pub request_owner : find id s.request_owner ≡ none
  pub request_status : find id s.request_status ≡ none

one_of-without : (x : String) (ys : List String) → one_of x (without x ys) ≡ false
unfolding without
one_of-without x [] = refl
one_of-without x (y ∷ ys) = ground (arith, one_of-without x ys)

forget-IsForgotten : (id : String) (s : Requests) → IsForgotten id (forget id s)
unfolding forget
forget-IsForgotten id s = record {
  pending = one_of-without id s.pending;
  progress = find-without_key id s.progress;
  last_seen = find-without_key id s.last_seen;
  request_owner = find-without_key id s.request_owner;
  request_status = find-without_key id s.request_status;
}

-- The call returns, by the deadline, and forgets the request.
abbrev pub IsInTime : String → ℕ → Option Ended → Type 0
IsInTime id deadline none = ⊥
IsInTime id deadline (some e) = (e.at ≤ deadline) × IsNoKeyError e.verdict × IsForgotten id e.state

module _ (id : String) (patience : Patience) (deadline : ℕ) where
  -- Fuel for one pass per message and two more, or for the pass that gives up.
  Enough : ℕ → ℕ → ℕ → List Arrival → Type 0
  Enough fuel now seen arrivals =
      (suc (suc (length arrivals)) ≤ fuel)
      ⊎ ((1 ≤ fuel) × ((deadline ≤ now) ⊎ (patience.idle_timeout - (now - seen) ≡ 0)))

  stopped :
      (verdict : Verdict) (now : ℕ) (arrivals : List Arrival) (s : Requests)
      → IsNoKeyError verdict
      → now ≤ deadline
      → IsInTime id deadline (some (stop_waiting id verdict now arrivals s))
  unfolding stop_waiting
  stopped verdict now arrivals s fine early = (early, fine, forget-IsForgotten id s)

  verdict_of-IsNoKeyError : (o : Option Fields) → o ≢ none → IsNoKeyError (verdict_of o)
  unfolding verdict_of
  verdict_of-IsNoKeyError none h = h refl
  verdict_of-IsNoKeyError (some payload) h = tt

  resumed :
      (seen until n : ℕ) (woken : Woken) (at : ℕ) (rest : List Arrival) (t : Requests)
      (again : Option Ended)
      → until ≤ deadline
      → Wakes id seen until n woken at rest t
      → (woken ≢ done → IsInTime id deadline again)
      → IsInTime id deadline
          (resume id (record { woken = woken; at = at; rest = rest; state = t }) again)
  unfolding resume
  resumed seen until n done at rest t again within h go =
      stopped (verdict_of (find id t.answers)) at rest t
        (verdict_of-IsNoKeyError (find id t.answers) (holds-some id t.answers h.1))
        (omega (arith, h.0))
  resumed seen until n nudged at rest t again within h go = go cc
  resumed seen until n lapsed at rest t again within h go = go cc

  -- The next pass has fuel enough.
  next-Enough :
      (fuel now seen n : ℕ) (woken : Woken) (at : ℕ) (rest : List Arrival) (t : Requests)
      → suc (suc n) ≤ suc fuel
      → now ≤ deadline
      → seen ≤ now
      → Wakes id seen
          (now + min (patience.idle_timeout - (now - seen)) (deadline - now))
          n
          woken
          at
          rest
          t
      → woken ≢ done
      → (last : ℕ) × (set : Bool) × IsAwaited id last set t
        × (last ≤ at)
        × (at ≤ deadline)
        × Enough fuel at last rest
  unfolding Enough
  next-Enough fuel now seen n done at rest t le early past h other = absurd (other refl)
  next-Enough fuel now seen n nudged at rest t le early past h other =
      (at, true, h.1, omega arith, omega (arith, h.0), inl (omega (arith, h.2)))
  next-Enough fuel now seen n lapsed at rest t le early past h other = (
    seen,
    false,
    h.1,
    omega (arith, h.0),
    omega (arith, h.0),
    inr (omega arith, ground (arith, h.0)),
  )

  await_from-IsInTime :
      (fuel now seen : ℕ) (set : Bool) (arrivals : List Arrival) (s : Requests)
      → Enough fuel now seen arrivals
      → now ≤ deadline
      → seen ≤ now
      → IsAwaited id seen set s
      → IsInTime id deadline (await_from fuel id patience deadline now arrivals s)
  unfolding await_from Enough
  await_from-IsInTime zero now seen set arrivals s enough early past h = absurd (ground arith)
  await_from-IsInTime (suc fuel) now seen set arrivals s enough early past h =
      either_by (IsInTime id deadline) (leb deadline now) _ _
        (λ e. stopped (timed_out (no_answer patience.what)) now arrivals s tt early)
        (λ live. rw h.last (
          either_by (IsInTime id deadline) (leb (patience.idle_timeout - (now - seen)) 0) _ _
            (λ e. stopped (timed_out (no_answer patience.what)) now arrivals s tt early)
            (λ patient.
              let n = length arrivals in
              let le : suc (suc n) ≤ suc fuel = ground arith in
              let timeout = min (patience.idle_timeout - (now - seen)) (deadline - now) in
              let cleared = record s { progress = assign id false s.progress } in
              let p = wait id now timeout arrivals cleared in
              let woken = wait-Wakes id seen now timeout arrivals cleared (record {
                listed = h.listed;
                last = h.last;
                event = rw (find-assign, eq_refl) refl;
              }) in
              resumed seen (now + timeout) n p.woken p.at p.rest p.state
                (await_from fuel id patience deadline p.at p.rest p.state) (omega arith) woken
                (λ other.
                  let (last, still_set, awaited, heard, within, enough_left) =
                    next-Enough fuel now seen n p.woken p.at p.rest p.state le early past woken
                      other in
                  await_from-IsInTime fuel p.at last still_set p.rest p.state enough_left within
                    heard awaited))))

-- The wait for a request that is in the map, and was heard of before, returns by the hard deadline
-- with a reply or with the failure to get one, whatever messages arrive and when; afterwards none of
-- the session's maps has the request.
pub await_client-IsInTime :
    (id : String) (patience : Patience) (now seen : ℕ) (arrivals : List Arrival) (s : Requests)
    → one_of id s.pending ≡ true
    → find id s.last_seen ≡ some seen
    → seen ≤ now
    → IsInTime id (now + patience.hard_timeout) (await_client id patience now arrivals s)
unfolding await_client Enough
await_client-IsInTime id patience now seen arrivals s listed last past =
    await_from-IsInTime id patience (now + patience.hard_timeout) (suc (suc (length arrivals))) now
      seen (event_set (find id (set_default id false s.progress))) arrivals _ (inl (omega arith))
      (omega arith) past
      (record {
        listed = listed;
        last = find-set_default id now seen s.last_seen last;
        event = refl;
      })
