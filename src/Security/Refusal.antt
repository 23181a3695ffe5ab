-- ===== src/Security/Refusal.antt =====
-- What the token checks of app/core/security.py refuse, and that they fail quietly.
use grafux_orchestrator.Prelude.{
  String, ◌≡◌, ◌≢◌, refl, Bool, true, false, if◌then◌else◌, Option, none, some, ◌==◌, ◌↔◌, arith,
  eq_iff,
}
use grafux_orchestrator.Python.{Value, Fields, Outcome, ok, raised, cancelled}
use grafux_orchestrator.Exec.{Exec, reads, pure, try_except, handle, continue, ◌>>=◌}
use grafux_orchestrator.Exec.Outcomes.{IsCalm, IsCalm-pure, IsCalm-if, IsCalm-bind, calm_rules}
use grafux_orchestrator.Security.{
  Services, Settings, Store, readable, try_cache, remember, try_verify, verify_supabase_jwt,
  conclude_jwt, verify_jwt, verify_internal_secret, require_internal_service,
}

module _ {W Key : Type 0} (services : Services W Key) (settings : Settings) where
  try_cache-IsCalm : (token : String) → IsCalm (try_cache services token)
  unfolding try_cache
  try_cache-IsCalm token = search calm_rules

  try_verify-IsCalm : (token : String) → IsCalm (try_verify services settings token)
  unfolding try_verify
  try_verify-IsCalm token = search calm_rules

  conclude_jwt-IsCalm :
      (token : String) (payload : Option Fields)
      → IsCalm (conclude_jwt services settings token payload)
  unfolding conclude_jwt remember
  conclude_jwt-IsCalm token none = search calm_rules
  conclude_jwt-IsCalm token (some payload) = search calm_rules

  known_or-IsCalm :
      (o : Option Value) (fresh : Exec (Store W) (Option Value))
      → IsCalm fresh
      → IsCalm (elim o [ some known ↦ pure (some known) | none ↦ fresh ])
  known_or-IsCalm none fresh h = h
  known_or-IsCalm (some v) fresh h = IsCalm-pure (some v)

  calm : (token : String) → IsCalm (verify_jwt services settings token)
  unfolding verify_jwt
  calm token = IsCalm-if (token == "") _ _ (IsCalm-pure none) (
      IsCalm-bind (try_cache services token) _ (try_cache-IsCalm token) (λ cached.
        known_or-IsCalm (readable services cached) _ (
          IsCalm-bind (try_verify services settings token) _ (try_verify-IsCalm token)
            (conclude_jwt-IsCalm token))))

  -- The answer to a token that the cache says this of, by what the verification gave.
  abbrev pub IsSettled : Option Value → Outcome Fields → Outcome (Option Value) → Type 0
  IsSettled (some known) verified r = r ≡ ok (some known)
  IsSettled none (raised e) r = r ≡ ok none
  IsSettled none verified r = Unit

  -- The same by what Redis was found to say, and whether the token is empty.
  abbrev pub IsClosed :
      Bool → Outcome (Option String) → Outcome Fields → Outcome (Option Value) → Type 0
  IsClosed true entry verified r = r ≡ ok none
  IsClosed false (ok entry) verified r = IsSettled (readable services entry) verified r
  IsClosed false entry verified r = Unit

  -- The answer past the cache.
  fresh : String → Exec (Store W) (Option Value)
  fresh token = try_verify services settings token >>= conclude_jwt services settings token

  fresh-IsSettled :
      (token : String) (s : Store W) (verified : Outcome Fields)
      → (verify_supabase_jwt services settings token s).0 ≡ verified
      → IsSettled none verified (fresh token s).0
  unfolding fresh try_verify conclude_jwt try_except handle reads ◌>>=◌ continue
  fresh-IsSettled token s (raised e) h = rw h refl
  fresh-IsSettled token s (ok payload) h = tt
  fresh-IsSettled token s cancelled h = tt

  known_or-IsSettled :
      (token : String) (o : Option Value) (s : Store W)
      → IsSettled o
          (verify_supabase_jwt services settings token s).0
          ((elim o as (λ _. Exec (Store W) (Option Value)) [
            | some known ↦ pure (some known)
            | none ↦ fresh token
          ])
            s).0
  unfolding reads
  known_or-IsSettled token (some known) s = refl
  known_or-IsSettled token none s = fresh-IsSettled token s _ refl

  looked_up : String → Option String → Exec (Store W) (Option Value)
  looked_up token entry = elim (readable services entry) [
    | some known ↦ pure (some known)
    | none ↦ fresh token
  ]

  looked_up-IsClosed :
      (token : String) (entry : Outcome (Option String)) (s : Store W)
      → IsClosed false entry
          (verify_supabase_jwt services settings token s).0
          (continue entry (looked_up token) s).0
  unfolding continue looked_up
  looked_up-IsClosed token (ok entry) s = known_or-IsSettled token (readable services entry) s
  looked_up-IsClosed token (raised e) s = tt
  looked_up-IsClosed token cancelled s = tt

  closes :
      (token : String) (test : Bool) (s : Store W)
      → IsClosed test
          (try_cache services token s).0
          (verify_supabase_jwt services settings token (try_cache services token s).1).0
          ((if test then pure none else (try_cache services token >>= looked_up token)) s).0
  unfolding reads ◌>>=◌
  closes token true s = refl
  closes token false s =
      looked_up-IsClosed token (try_cache services token s).0 (try_cache services token s).1

  -- `verify_jwt` raises no exception, whatever Redis, the issuer's server and PyJWT do. It answers
  -- None for an empty token and, where Redis says nothing of the token that can be read, for one whose
  -- verification raises; what Redis says is the answer, if it can be read.
  pub verify_jwt-IsCalm :
      (token : String) (s : Store W)
      → IsCalm (verify_jwt services settings token)
        × IsClosed
            (token == "")
            (try_cache services token s).0
            (verify_supabase_jwt services settings token (try_cache services token s).1).0
            (verify_jwt services settings token s).0
  unfolding verify_jwt fresh looked_up
  verify_jwt-IsCalm token s = (calm token, closes token (token == "") s)

-- A request passes the check of internal services exactly if it carries the secret that is
-- configured, and one is configured: with an empty setting, nobody passes.
pub require_internal_service-true_iff :
    (settings : Settings) (given : Option String)
    → require_internal_service settings given ≡ true
      ↔ ((given ≡ some settings.internal_service_secret) × (settings.internal_service_secret ≢ ""))
unfolding require_internal_service verify_internal_secret
require_internal_service-true_iff settings none = ground arith
require_internal_service-true_iff settings (some secret) = ground (
  arith,
  eq_iff secret "",
  eq_iff secret settings.internal_service_secret,
  eq_iff settings.internal_service_secret "",
)
