-- ===== src/Session/Requests.antt =====
-- The requests that `_OrchestratorSession` of app/modules/session/router.py makes to its client:
-- `_dispatch_client`, `_resolve_pending`, `_note_progress`, `_fail_pending` and `_await_client`.
-- Times in milliseconds. The session's messages arrive at given times.
pub mod Waiting
pub mod Deadline
pub mod Outcomes
use grafux_orchestrator.Prelude.{
  ℕ, zero, suc, ◌+◌, ◌-◌, min, String, ◌<>◌, ◌==◌, Bool, true, false, not, ◌&&◌, ◌||◌, Option, none,
  some, List, [], ◌∷◌, ◌++◌, length, leb, strip, one_of, if◌then◌else◌, Table, find, holds, assign,
  without_key, set_default,
}
use grafux_orchestrator.Python.{
  Value, null, flag, num, text, obj, Fields, end, field, truthy, to_str, get_or, put, type_name,
  Outcome, ok, raised, cancelled,
}

-- `_pending`, `_progress`, `_last_seen`, `_request_owner` and `_request_status`. `answers` are the
-- results of the futures, which their waiters hold too, and `sent` the messages to the client, the
-- newest first. An event of `_progress` is whether it is set.
pub record Requests : Type 0 where
  pub pending : List String
  pub answers : Table Fields
  pub progress : Table Bool
  pub last_seen : Table ℕ
  pub request_owner : Table String
  pub request_status : Table String
  pub sent : List Fields

abbrev pub no_requests : Requests
no_requests = record {
  pending = [];
  answers = [];
  progress = [];
  last_seen = [];
  request_owner = [];
  request_status = [];
  sent = [];
}

unfoldable pub without : String → List String → List String
without x [] = []
without x (y ∷ ys) = let rest = without x ys in if x == y then rest else y ∷ rest

-- `fut.set_result(payload)` unless it is done.
unfoldable pub set_result : String → Fields → Requests → Requests
unfolding holds assign
set_result id payload s =
    if holds id s.answers then s else record s { answers = assign id payload s.answers }

-- `_resolve_pending`
unfoldable pub resolve_pending : String → Fields → Requests → Requests
unfolding set_result
resolve_pending id payload s = if one_of id s.pending then set_result id payload s else s

-- The result of a request that failed: with and without its last key, in the order of the code.
abbrev pub failed_with : String → Fields
failed_with reason =
    field "ok" (flag false)
      (field "found" (flag false) (field "detail" (text reason) (field "content" (text "") end)))

unfoldable pub fail_all : String → List String → Requests → Requests
unfolding set_result
fail_all reason [] s = s
fail_all reason (id ∷ ids) s = fail_all reason ids (set_result id (failed_with reason) s)

-- `_fail_pending`
unfoldable pub fail_pending : String → Requests → Requests
unfolding fail_all
fail_pending reason s = record (fail_all reason s.pending s) {
  pending = [];
  progress = [];
  last_seen = [];
  request_owner = [];
  request_status = [];
}

-- The step that tells the user what a long run is doing.
abbrev pub status_step : String → String → Fields
status_step owner sub_status = field "type" (text "agent_step") (
    field "block_id" (text owner) (
      field "seq" (num 0) (
        field "kind" (text "tool_result")
          (field "text" (text sub_status) (field "tool" (obj "{}" end) end)))))

-- `d.get(key, "")`; for a status, which is not empty, the same as no status.
unfoldable pub find_or_blank : String → Table String → String
unfolding find
find_or_blank key d = elim (find key d) [ none ↦ "" | some t ↦ t ]

-- The rest of `_note_progress`, once the time was noted: the owner is told of a new status.
unfoldable pub note_status : String → String → Requests → Requests
unfolding find_or_blank assign
note_status id sub_status s =
    let owner = find_or_blank id s.request_owner in
    if sub_status == "" || sub_status == find_or_blank id s.request_status then s else record s {
      request_status = assign id sub_status s.request_status;
      sent = if owner == "" then s.sent else status_step owner sub_status ∷ s.sent;
    }

-- `_note_progress`, at the time `now`
unfoldable pub note_progress : ℕ → String → String → Requests → Requests
unfolding holds assign note_status strip
note_progress now id sub_status s =
    if holds id s.progress
    then note_status id (strip sub_status)
        (record s { last_seen = assign id now s.last_seen; progress = assign id true s.progress })
    else s

-- `_dispatch_client`, with the id that `uuid4` gave.
unfoldable pub dispatch_client : ℕ → String → Fields → String → Requests → Requests
unfolding assign put
dispatch_client now id message owner s = record s {
  pending = s.pending ++ id ∷ [];
  progress = assign id false s.progress;
  last_seen = assign id now s.last_seen;
  request_owner = if owner == "" then s.request_owner else assign id owner s.request_owner;
  sent = put "request_id" (text id) message ∷ s.sent;
}

-- A message's `data.get(key)` that is used as a text; a request id of another type is the id of no
-- request.
unfoldable pub text_or : String → String → Fields → String
unfolding get_or
text_or key default msg = elim (get_or key (text default) msg) [ text s ↦ s | v ↦ "" ]

-- `d.get(key) or {}`, unpacked into a dictionary: what is true and no mapping is an error.
unfoldable pub dict_or_empty : Value → Outcome Fields
unfolding truthy
dict_or_empty (obj shown fs) = ok fs
dict_or_empty v =
    if truthy v then raised ("'" <> (type_name v <> "' object is not a mapping")) else ok end

-- `msg.get("detail", "") or observation.get("detail", "")`
unfoldable pub either_detail : Fields → Fields → Value
unfolding get_or truthy
either_detail msg observation =
    let detail = get_or "detail" (text "") msg in
    if truthy detail then detail else get_or "detail" (text "") observation

-- What a client's result resolves its request with, over its observation.
unfoldable pub action_payload : Fields → Fields → Fields
unfolding get_or truthy put either_detail
action_payload msg observation =
    let ok = truthy (get_or "ok" (flag true) msg) && truthy (get_or "ok" (flag true) observation) in
    put "status_text" (get_or "status" (text "") msg)
      (put "detail" (either_detail msg observation) (put "ok" (flag ok) observation))

-- The handling of such a result, which may raise.
unfoldable pub receive_result : String → Fields → Outcome Fields → Requests → Outcome Requests
unfolding resolve_pending action_payload
receive_result id msg (ok observation) s =
    ok (resolve_pending id (action_payload msg observation) s)
receive_result id msg (raised e) s = raised e
receive_result id msg cancelled s = cancelled

-- The branches of `_dispatch_text` that touch the requests, at the time `now`.
unfoldable pub receive : ℕ → Fields → Requests → Outcome Requests
unfolding resolve_pending note_progress receive_result dict_or_empty text_or get_or to_str truthy
    strip
receive now msg s =
    let kind = text_or "type" "" msg in
    let id = text_or "request_id" "" msg in
    if kind == "port_content"
    then ok (
        resolve_pending id
          (field "found" (flag (truthy (get_or "found" null msg)))
            (field "content" (get_or "content" (text "") msg) end))
          s)
    else if kind == "agent_action_result"
    then (if to_str (get_or "status" (text "done") msg) == "started"
        then ok (note_progress now id (to_str (get_or "detail" (text "") msg)) s)
        else receive_result id msg (dict_or_empty (get_or "observation" null msg)) s)
    else if kind == "agent_action_progress"
    then ok (note_progress now id (to_str (get_or "sub_status" (text "") msg)) s)
    else if kind == "agent_user_message"
    then (let asked = strip (to_str (get_or "request_id" (text "") msg)) in
        let answer = strip (to_str (get_or "text" (text "") msg)) in
        if asked == ""
        then ok s
        else ok
            (resolve_pending asked (field "ok" (flag true) (field "answer" (text answer) end)) s))
    else ok s

-- What happens to the session, and when.
pub data Arrival : Type 0 where
  message : (at : ℕ) → Fields → Arrival
  lost : (at : ℕ) → Arrival

abbrev pub arrives_at : Arrival → ℕ
arrives_at (message at msg) = at
arrives_at (lost at) = at

-- An exception of `_dispatch_text` ends `run`, and the session is cleaned up.
unfoldable pub outlast : Outcome Requests → Requests → Requests
unfolding fail_pending
outlast (ok t) s = t
outlast r s = fail_pending "the client disconnected" s

unfoldable pub take_in : Arrival → Requests → Requests
unfolding receive outlast fail_pending
take_in (message at msg) s = outlast (receive at msg s) s
take_in (lost at) s = fail_pending "the client disconnected" s

pub data Woken : Type 0 where
  done nudged lapsed : Woken

-- How a wait ended, when, what has yet to arrive, and the session then.
pub record Pause : Type 0 where
  pub woken : Woken
  pub at : ℕ
  pub rest : List Arrival
  pub state : Requests

abbrev pub event_set : Option Bool → Bool
event_set none = false
event_set (some b) = b

-- Messages are handled until the future is done, the event is set, or the time `until` comes.
unfoldable pub sleep : String → ℕ → List Arrival → Requests → Pause
unfolding take_in holds find
sleep id until [] s = record { woken = lapsed; at = until; rest = []; state = s }
sleep id until (a ∷ arrivals) s =
    let t = take_in a s in
    let later = sleep id until arrivals t in
    if leb (arrives_at a) until
    then (if holds id t.answers
        then record { woken = done; at = arrives_at a; rest = arrivals; state = t }
        else if event_set (find id t.progress)
        then record { woken = nudged; at = arrives_at a; rest = arrivals; state = t }
        else later)
    else record { woken = lapsed; at = until; rest = a ∷ arrivals; state = s }

-- `asyncio.wait({fut, waiter}, timeout)`, which returns at once where the future is done.
unfoldable pub wait : String → ℕ → ℕ → List Arrival → Requests → Pause
unfolding sleep holds
wait id now timeout arrivals s =
    if holds id s.answers
    then record { woken = done; at = now; rest = arrivals; state = s }
    else sleep id (now + timeout) arrivals s

-- `finally` of `_await_client`
unfoldable pub forget : String → Requests → Requests
unfolding without without_key
forget id s = record s {
  pending = without id s.pending;
  progress = without_key id s.progress;
  last_seen = without_key id s.last_seen;
  request_owner = without_key id s.request_owner;
  request_status = without_key id s.request_status;
}

pub data Verdict : Type 0 where
  replied : Fields → Verdict
  timed_out : Fields → Verdict
  key_error : Verdict

pub record Ended : Type 0 where
  pub verdict : Verdict
  pub at : ℕ
  pub rest : List Arrival
  pub state : Requests

abbrev pub no_answer : String → Fields
no_answer what = field "ok" (flag false) (
    field "found" (flag false) (
      field "content" (text "")
        (field "detail" (text ("the app did not respond to the " <> (what <> " in time"))) end)))

-- The five parameters of a call.
pub record Patience : Type 0 where
  pub idle_timeout : ℕ
  pub hard_timeout : ℕ
  pub what : String

unfoldable pub stop_waiting : String → Verdict → ℕ → List Arrival → Requests → Ended
unfolding forget
stop_waiting id verdict now arrivals s = record {
  verdict = verdict;
  at = now;
  rest = arrivals;
  state = forget id s;
}

unfoldable pub verdict_of : Option Fields → Verdict
verdict_of none = key_error
verdict_of (some payload) = replied payload

-- `if fut in done: return fut.result()`; the futures are never cancelled.
unfoldable pub resume : String → Pause → Option Ended → Option Ended
unfolding stop_waiting verdict_of find
resume id pause again = elim pause.woken [
  | done ↦
      some
        (stop_waiting id (verdict_of (find id pause.state.answers)) pause.at pause.rest pause.state)
  | _ ↦ again
]

-- `while True` of `_await_client`, on fuel: `none` if it ran out.
unfoldable pub await_from : ℕ → String → Patience → ℕ → ℕ → List Arrival → Requests → Option Ended
unfolding wait stop_waiting resume find assign
await_from zero id patience deadline now arrivals s = none
await_from (suc fuel) id patience deadline now arrivals s =
    if leb deadline now
    then some (stop_waiting id (timed_out (no_answer patience.what)) now arrivals s)
    else elim (find id s.last_seen) [
      | none ↦ some (stop_waiting id key_error now arrivals s)
      | some seen ↦
          let idle_left = patience.idle_timeout - (now - seen) in
          let cleared = record s { progress = assign id false s.progress } in
          let pause = wait id now (min idle_left (deadline - now)) arrivals cleared in
          let again = await_from fuel id patience deadline pause.at pause.rest pause.state in
          if leb idle_left 0
          then some (stop_waiting id (timed_out (no_answer patience.what)) now arrivals s)
          else resume id pause again
    ]

-- `_await_client`: each pass but the last two takes a message, so this is enough fuel.
unfoldable pub await_client : String → Patience → ℕ → List Arrival → Requests → Option Ended
unfolding await_from set_default
await_client id patience now arrivals s =
    await_from (suc (suc (length arrivals))) id patience (now + patience.hard_timeout) now arrivals
      (record s {
        progress = set_default id false s.progress;
        last_seen = set_default id now s.last_seen;
      })
