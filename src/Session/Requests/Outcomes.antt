-- ===== src/Session/Requests/Outcomes.antt =====
-- What a client's result of an action becomes, in app/modules/session/router.py.
use grafux_orchestrator.Prelude.{
  ℕ, String, if◌then◌else◌, ◌==◌, ◌≡◌, refl, ap, ◌∙◌, Bool, true, false, ◌&&◌, Option, none, some,
  eq_refl, one_of, find, holds, find-assign,
}
use grafux_orchestrator.Python.{
  Value, null, flag, num, neg, real, text, arr, obj, Fields, end, truthy, to_str, get, get_or, put,
  Outcome, ok, raised,
}
use mathlib.Core.Path.{subst}
use grafux_orchestrator.Python.Laws.{get-put_self, get-put_ne}
use grafux_orchestrator.BlockAgent.Observation.{observed_ok}
use grafux_orchestrator.Session.Requests.{
  Requests, set_result, resolve_pending, text_or, dict_or_empty, action_payload, either_detail,
  receive, receive_result,
}

-- The success that the message's envelope and its observation agree on.
abbrev pub reported_ok : Fields → Fields → Bool
reported_ok msg observation =
    truthy (get_or "ok" (flag true) msg) && truthy (get_or "ok" (flag true) observation)

-- The handling gave the request an observation that counts as a success to the agent just if both
-- the envelope of the message and the observation in it say so.
abbrev pub IsAnswered : String → Fields → Fields → Outcome Requests → Type 0
IsAnswered id msg reported (ok t) =
    (observation : Fields) × (find id t.answers ≡ some observation)
    × (observed_ok observation ≡ reported_ok msg reported)
IsAnswered id msg reported r = ⊥

abbrev pub HasRaised : Outcome Requests → Type 0
HasRaised (raised e) = Unit
HasRaised r = ⊥

-- What is to come of a message with this value as its observation.
abbrev pub IsReported : String → Fields → Value → Outcome Requests → Type 0
IsReported id msg (obj shown fs) r = IsAnswered id msg fs r
IsReported id msg v r = if truthy v then HasRaised r else IsAnswered id msg end r

get-action_payload :
    (msg fs : Fields) → get "ok" (action_payload msg fs) ≡ some (flag (reported_ok msg fs))
unfolding action_payload
get-action_payload msg fs =
    let with_ok = put "ok" (flag (reported_ok msg fs)) fs in
    let detail = either_detail msg fs in
    get-put_ne "status_text" "ok" (get_or "status" (text "") msg) (put "detail" detail with_ok) refl
    ∙ get-put_ne "detail" "ok" detail with_ok refl
    ∙ get-put_self "ok" (flag (reported_ok msg fs)) fs

observed_ok-flag : (b : Bool) (fs : Fields) → get "ok" fs ≡ some (flag b) → observed_ok fs ≡ b
unfolding get_or truthy
observed_ok-flag b fs h =
    ap (λ (o : Option Value). truthy (elim o [ none ↦ flag true | some v ↦ v ])) h

module _ (id : String) (msg : Fields) (s : Requests) where
  receive_result-IsAnswered :
      (observation : Fields)
      → one_of id s.pending ≡ true
      → holds id s.answers ≡ false
      → IsAnswered id msg observation (receive_result id msg (ok observation) s)
  unfolding receive_result resolve_pending set_result
  receive_result-IsAnswered observation listed open_still = (
    action_payload msg observation,
    rw (listed, open_still) (rw (find-assign, eq_refl) refl),
    observed_ok-flag (reported_ok msg observation) (action_payload msg observation)
        (get-action_payload msg observation),
  )

  -- A value that is no dictionary.
  plain-IsReported :
      (v : Value) (e : String) (test : Bool)
      → one_of id s.pending ≡ true
      → holds id s.answers ≡ false
      → (if test
          then HasRaised (receive_result id msg (if test then raised e else ok end) s)
          else IsAnswered id msg end (receive_result id msg (if test then raised e else ok end) s))
  unfolding receive_result
  plain-IsReported v e true listed open_still = tt
  plain-IsReported v e false listed open_still = receive_result-IsAnswered end listed open_still

  receive_result-IsReported :
      (v : Value)
      → one_of id s.pending ≡ true
      → holds id s.answers ≡ false
      → IsReported id msg v (receive_result id msg (dict_or_empty v) s)
  unfolding dict_or_empty
  receive_result-IsReported (obj shown fs) l o = receive_result-IsAnswered fs l o
  receive_result-IsReported null l o = plain-IsReported null "" (truthy null) l o
  receive_result-IsReported (flag b) l o = plain-IsReported (flag b) _ (truthy (flag b)) l o
  receive_result-IsReported (num n) l o = plain-IsReported (num n) _ (truthy (num n)) l o
  receive_result-IsReported (neg n) l o = plain-IsReported (neg n) _ (truthy (neg n)) l o
  receive_result-IsReported (real x y) l o = plain-IsReported (real x y) _ (truthy (real x y)) l o
  receive_result-IsReported (text x) l o = plain-IsReported (text x) _ (truthy (text x)) l o
  receive_result-IsReported (arr x vs) l o = plain-IsReported (arr x vs) _ (truthy (arr x vs)) l o

-- A result that is not the acknowledgement `started`, for a request that still waits: with an
-- observation that is a dictionary or is false, the request gets an observation that counts as a
-- success to the agent just if both the envelope and the observation in it say so, or say nothing;
-- with one that is true and no dictionary, the handling of the message raises.
pub receive-IsReported :
    (now : ℕ) (msg : Fields) (s : Requests)
    → text_or "type" "" msg ≡ "agent_action_result"
    → (to_str (get_or "status" (text "done") msg) == "started") ≡ false
    → one_of (text_or "request_id" "" msg) s.pending ≡ true
    → holds (text_or "request_id" "" msg) s.answers ≡ false
    → IsReported
        (text_or "request_id" "" msg)
        msg
        (get_or "observation" null msg)
        (receive now msg s)
unfolding receive
receive-IsReported now msg s kind final listed open_still =
    let id = text_or "request_id" "" msg in
    let observation = get_or "observation" null msg in
    subst (IsReported id msg observation) (rw (kind, final) refl)
      (receive_result-IsReported id msg s observation listed open_still)
