-- ===== src/Security/Trust.antt =====
-- Whom `verify_jwt` of app/core/security.py believes.
use grafux_orchestrator.Prelude.{
  String, ◌≡◌, refl, Bool, true, false, Option, none, some, ◌==◌, if◌then◌else◌,
}
use grafux_orchestrator.Python.{Value, obj, Fields, Outcome, ok, raised, cancelled}
use grafux_orchestrator.Exec.{Exec, pure, lift}
use grafux_orchestrator.Exec.Outcomes.{
  Yields, Yields-lift, Yields-pure, Yields-if, Yields-try_except, Yields-bind, Yields-raised,
  Yields-then,
}
use grafux_orchestrator.Security.{
  Services, Settings, Store, token_cache_key, call, verify_es256, verify_supabase_jwt, identity,
  readable, try_cache, remember, try_verify, conclude_jwt, verify_jwt,
}

module _ {W Key : Type 0} (services : Services W Key) (settings : Settings) where
  -- PyJWT accepts the token, by a signature, and reads the payload from it.
  pub data IsSigned (token : String) (payload : Fields) : Type 0 where
    by_secret :
        services.decode_hs256 token settings.supabase_jwt_secret ≡ ok payload
        → IsSigned token payload
    by_key : (key : Key) → services.decode_es256 token key ≡ ok payload → IsSigned token payload

  -- Redis answers with the entry when it is asked for the token.
  pub record IsRecalled (token entry : String) : Type 0 where
    pub at : W
    pub answered : (services.redis_get (token_cache_key services token) at).0 ≡ ok (some entry)

  -- There is a reason to believe what is said of the bearer of the token.
  pub data IsVouched (token : String) : Value → Type 0 where
    by_signature :
        (payload : Fields)
        → IsSigned token payload
        → IsVouched token (obj (services.dumps (identity payload)) (identity payload))
    by_cache :
        (entry : String) (v : Value)
        → IsRecalled token entry
        → services.loads entry ≡ ok v
        → IsVouched token v

  IsSigned-by_key :
      (token : String) (key : Key)
      → Yields {S = Store W} (IsSigned token) (lift (services.decode_es256 token key))
  IsSigned-by_key token key = Yields-lift _ (λ payload e. by_key key e)

  IsSigned-by_secret :
      (token : String)
      → Yields {S = Store W}
          (IsSigned token)
          (lift (services.decode_hs256 token settings.supabase_jwt_secret))
  IsSigned-by_secret token = Yields-lift _ (λ payload e. by_secret e)

  verify_es256-IsSigned :
      (token : String) (header : Fields) (issuer : String)
      → Yields (IsSigned token) (verify_es256 services token header issuer)
  unfolding verify_es256
  verify_es256-IsSigned token header issuer = search (IsSigned-by_key, Yields-then)

  verify_supabase_jwt-IsSigned :
      (token : String) → Yields (IsSigned token) (verify_supabase_jwt services settings token)
  unfolding verify_supabase_jwt
  verify_supabase_jwt-IsSigned token =
      search (IsSigned-by_secret, verify_es256-IsSigned, Yields-if, Yields-raised, Yields-then)
        depth 12

  -- A property of an optional value.
  abbrev pub Known : {A : Type 0} → (A → Type 0) → Option A → Type 0
  Known P none = Unit
  Known P (some a) = P a

  recalled :
      (token : String) (o : Option String) (w : W)
      → (services.redis_get (token_cache_key services token) w).0 ≡ ok o
      → Known (IsRecalled token) o
  recalled token none w e = tt
  recalled token (some entry) w e = record { at = w; answered = e }

  asked-Known :
      (token : String)
      → Yields
          (Known (IsRecalled token))
          (call (services.redis_get (token_cache_key services token)))
  unfolding call
  asked-Known token = record { at = λ s o e. recalled token o s.world e }

  try_cache-Known : (token : String) → Yields (Known (IsRecalled token)) (try_cache services token)
  unfolding try_cache
  try_cache-Known token = Yields-try_except _ _ (asked-Known token) (λ e. Yields-pure none tt)

  try_verify-Known :
      (token : String) → Yields (Known (IsSigned token)) (try_verify services settings token)
  unfolding try_verify
  try_verify-Known token =
      Yields-try_except _ _
        (Yields-bind (IsSigned token) (verify_supabase_jwt services settings token) _
          (verify_supabase_jwt-IsSigned token) (λ payload h. Yields-pure (some payload) h))
        (λ e. Yields-pure none tt)

  conclude_jwt-Known :
      (token : String) (payload : Option Fields)
      → Known (IsSigned token) payload
      → Yields (Known (IsVouched token)) (conclude_jwt services settings token payload)
  unfolding conclude_jwt
  conclude_jwt-Known token none h = Yields-pure none tt
  conclude_jwt-Known token (some payload) h =
      Yields-then (remember services settings token (identity payload)) _
        (λ _. Yields-pure _ (by_signature payload h))

  read-Known :
      (token entry : String) (blank : Bool) (r : Outcome Value)
      → IsRecalled token entry
      → services.loads entry ≡ r
      → Known (IsVouched token) (if blank then none else elim r [ ok v ↦ some v | _ ↦ none ])
  read-Known token entry true r h e = tt
  read-Known token entry false (ok v) h e = by_cache entry v h e
  read-Known token entry false (raised x) h e = tt
  read-Known token entry false cancelled h e = tt

  readable-Known :
      (token : String) (o : Option String)
      → Known (IsRecalled token) o
      → Known (IsVouched token) (readable services o)
  unfolding readable
  readable-Known token none h = tt
  readable-Known token (some entry) h =
      read-Known token entry (entry == "") (services.loads entry) h refl

  known_or :
      (token : String) (o : Option Value) (fresh : Exec (Store W) (Option Value))
      → Known (IsVouched token) o
      → Yields (Known (IsVouched token)) fresh
      → Yields (Known (IsVouched token)) (elim o [ some known ↦ pure (some known) | none ↦ fresh ])
  known_or token none fresh h f = f
  known_or token (some v) fresh h f = Yields-pure (some v) h

  -- `verify_jwt` says nothing of a bearer but what it has a reason to believe: PyJWT has accepted
  -- the token's signature, with the secret or with a key, and then the answer is the payload's user,
  -- or Redis has an entry for the token, and then the answer is that entry.
  pub verify_jwt-IsVouched :
      (token : String) → Yields (Known (IsVouched token)) (verify_jwt services settings token)
  unfolding verify_jwt
  verify_jwt-IsVouched token =
      Yields-if (token == "") _ _ (λ _. Yields-pure none tt)
        (λ _.
          Yields-bind (Known (IsRecalled token)) (try_cache services token) _
            (try_cache-Known token)
            (λ cached h.
              known_or token (readable services cached) _ (readable-Known token cached h) (
                Yields-bind (Known (IsSigned token)) (try_verify services settings token) _
                  (try_verify-Known token) (λ payload k. conclude_jwt-Known token payload k))))
