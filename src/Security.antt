-- ===== src/Security.antt =====
-- app/core/security.py, and the two checks of app/dependencies.py that stand on it.
pub mod Trust
pub mod Refusal
pub mod Issuer
mod Tests
use Prim.Native.Char.{code}
use grafux_orchestrator.Prelude.{
  ℕ, zero, suc, ◌<>◌, String, Bool, true, false, not, ◌&&◌, Option, none, some, List, [], ◌∷◌, ◌==◌,
  ◌=ℕ◌, strip, drop, starts_with, if◌then◌else◌,
}
use grafux_orchestrator.Python.{
  Value, null, flag, text, obj, Fields, end, field, get_or, truthy, Outcome, ok, raised, cancelled,
}
use grafux_orchestrator.Exec.{Exec, reads, pure, lift, gets, modify, skip, try_except, ◌>>=◌, ◌>>◌}

-- What the module takes from elsewhere: Redis, HTTP, `hashlib`, `json`, and PyJWT with its keys.
-- `get_unverified_header` and the unverified `decode` read a token without a check of who made it.
pub record Services (W Key : Type 0) : Type 0 where
  pub redis_get : String → W → Outcome (Option String) × W
  pub redis_setex : String → ℕ → String → W → Outcome (Unit {0}) × W
  pub fetch_keys : String → W → Outcome (List Fields) × W
  pub sha256 : String → String
  pub loads : String → Outcome Value
  pub dumps : Fields → String
  pub unverified_header : String → Outcome Fields
  pub unverified_claims : String → Outcome Fields
  pub from_jwk : Fields → Outcome Key
  pub decode_hs256 : String → String → Outcome Fields
  pub decode_es256 : String → Key → Outcome Fields

-- The settings that the module reads.
pub record Settings : Type 0 where
  pub supabase_jwt_secret : String
  pub auth_cache_ttl : ℕ
  pub internal_service_secret : String

-- `_jwks_cache`, with what is behind the clients.
pub record Store (W : Type 0) : Type 0 where
  pub jwks_cache : List (String × List Fields)
  pub world : W

unfoldable pub cached_keys : String → List (String × List Fields) → Option (List Fields)
cached_keys issuer [] = none
cached_keys issuer (entry ∷ rest) =
    let later = cached_keys issuer rest in if entry.0 == issuer then some entry.1 else later

-- `rstrip("/")`
unfoldable pub drop_slashes : String → String
drop_slashes String.[] = ""
drop_slashes (String.◌∷◌ c s) =
    let rest = drop_slashes s in if code c =ℕ 47 && rest == "" then "" else String.◌∷◌ c rest

unfoldable pub jwks_url : String → String
unfolding drop_slashes
jwks_url issuer = drop_slashes issuer <> "/.well-known/jwks.json"

-- `k.get("kid") == kid`: a key id of a header is a text, or is absent, which `get` makes `None`.
unfoldable pub same_kid : Value → Value → Bool
same_kid (text k) (text kid) = k == kid
same_kid null null = true
same_kid k kid = false

unfoldable pub first_key : List Fields → Option Fields
first_key [] = none
first_key (k ∷ ks) = some k

unfoldable pub matching : Value → List Fields → Option Fields
unfolding same_kid get_or
matching kid [] = none
matching kid (k ∷ ks) =
    let later = matching kid ks in if same_kid (get_or "kid" null k) kid then some k else later

-- The key with the header's id, or else the first one.
unfoldable pub choose_key : Value → List Fields → Option Fields
unfolding matching first_key
choose_key kid keys = elim (matching kid keys) [ some k ↦ some k | none ↦ first_key keys ]

-- The issuer that the token names. Only a text has `rstrip`, and only a text can be in the cache.
unfoldable pub claimed_issuer : Value → Outcome String
unfolding truthy
claimed_issuer (text iss) = if iss == "" then raised "Token missing iss claim" else ok iss
claimed_issuer v =
    if truthy v then raised "no attribute 'rstrip'" else raised "Token missing iss claim"

-- The text of an algorithm that the header names, or another text for what is none.
unfoldable pub algorithm : Value → String
algorithm (text alg) = alg
algorithm v = ""

-- What is told of the user.
unfoldable pub identity : Fields → Fields
unfolding get_or
identity payload =
    field "user_id" (get_or "sub" null payload)
      (field "email" (get_or "email" (text "") payload) (field "valid" (flag true) end))

-- `verify_internal_secret`
unfoldable pub verify_internal_secret : Settings → String → Bool
verify_internal_secret settings secret =
    if settings.internal_service_secret == ""
    then false
    else secret == settings.internal_service_secret

-- `require_internal_service`: whether the request goes on. Otherwise it is refused with 403.
unfoldable pub require_internal_service : Settings → Option String → Bool
unfolding verify_internal_secret
require_internal_service settings none = false
require_internal_service settings (some secret) =
    if secret == "" then false else verify_internal_secret settings secret

module _ {W : Type 0} where
  -- A call of a client: it goes to the world, and leaves the module's own cache alone.
  unfoldable pub call : {A : Type 0} → (W → Outcome A × W) → Exec (Store W) A
  call request s = let (r, w) = request s.world in (r, record s { world = w })

module _ {W Key : Type 0} (services : Services W Key) where
  abbrev pub token_cache_key : String → String
  token_cache_key token = "auth:token:" <> services.sha256 token

  -- What a cache entry says, if it says something and can be read.
  unfoldable pub readable : Option String → Option Value
  readable none = none
  readable (some entry) =
      if entry == "" then none else elim (services.loads entry) [ ok v ↦ some v | _ ↦ none ]

  unfoldable pub try_cache : String → Exec (Store W) (Option String)
  unfolding call try_except reads
  try_cache token =
      try_except (call (services.redis_get (token_cache_key token))) (λ exc. pure none)

  -- `_fetch_jwks`
  unfoldable pub fetch_jwks : String → Exec (Store W) (List Fields)
  unfolding cached_keys jwks_url call modify reads ◌>>=◌
  fetch_jwks issuer = do
    known ← gets (λ s. cached_keys issuer s.jwks_cache)
    elim known [
      | some keys ↦ pure keys
      | none ↦ do
        keys ← call (services.fetch_keys (jwks_url issuer))
        modify (λ s. record s { jwks_cache = (issuer, keys) ∷ s.jwks_cache })
        pure keys
    ]

  -- `public_key` of the chosen key, if there is one that is not empty.
  unfoldable pub public_key : Option Fields → Outcome Key
  public_key none = raised "No matching JWK found for token kid"
  public_key (some end) = raised "No matching JWK found for token kid"
  public_key (some (field k v fs)) = services.from_jwk (field k v fs)

  -- The ES256 branch, once the issuer is known.
  unfoldable pub verify_es256 : String → Fields → String → Exec (Store W) Fields
  unfolding fetch_jwks choose_key public_key get_or reads ◌>>=◌
  verify_es256 token header issuer = do
    keys ← fetch_jwks issuer
    key ← lift (public_key (choose_key (get_or "kid" null header) keys))
    lift (services.decode_es256 token key)

module _ {W Key : Type 0} (services : Services W Key) (settings : Settings) where
  -- `_verify_supabase_jwt`
  unfoldable pub verify_supabase_jwt : String → Exec (Store W) Fields
  unfolding verify_es256 claimed_issuer algorithm get_or reads ◌>>=◌
  verify_supabase_jwt token = do
    header ← lift (services.unverified_header token)
    let alg = algorithm (get_or "alg" (text "HS256") header)
    if alg == "HS256"
        then lift (services.decode_hs256 token settings.supabase_jwt_secret)
        else if alg == "ES256"
        then (do
          claims ← lift (services.unverified_claims token)
          issuer ← lift (claimed_issuer (get_or "iss" (text "") claims))
          verify_es256 services token header issuer)
        else lift (raised "Unsupported JWT algorithm")

  unfoldable pub remember : String → Fields → Exec (Store W) (Unit {0})
  unfolding call try_except reads
  remember token result =
      try_except
        (call (
          services.redis_setex (token_cache_key services token) settings.auth_cache_ttl
            (services.dumps result)))
        (λ exc. skip)

  unfoldable pub try_verify : String → Exec (Store W) (Option Fields)
  unfolding verify_supabase_jwt try_except reads ◌>>=◌
  try_verify token =
      try_except (do payload ← verify_supabase_jwt token; pure (some payload)) (λ exc. pure none)

  -- The part of `verify_jwt` after the cache. A `dict` is shown by `json.dumps` here.
  unfoldable pub conclude_jwt : String → Option Fields → Exec (Store W) (Option Value)
  unfolding identity remember reads ◌>>=◌
  conclude_jwt token none = pure none
  conclude_jwt token (some payload) = do
    remember token (identity payload)
    pure (some (obj (services.dumps (identity payload)) (identity payload)))

  -- `verify_jwt`
  unfoldable pub verify_jwt : String → Exec (Store W) (Option Value)
  unfolding try_cache readable try_verify conclude_jwt reads ◌>>=◌
  verify_jwt token = if token == "" then pure none else do
    cached ← try_cache services token
    elim (readable services cached) [
      | some known ↦ pure (some known)
      | none ↦ do payload ← try_verify token; conclude_jwt token payload
    ]

-- The token of an `Authorization` header.
unfoldable pub bearer : Option String → Option String
unfolding drop strip
bearer none = none
bearer (some header) = if starts_with header "Bearer " then some (strip (drop 7 header)) else none

-- A payload lets the request go on if it is true.
unfoldable pub admit : Option Value → Outcome Value
unfolding truthy
admit none = raised "Invalid or expired token"
admit (some v) = if truthy v then ok v else raised "Invalid or expired token"

module _ {W Key : Type 0} (services : Services W Key) (settings : Settings) where
  -- `get_current_user`: the user, or the refusal with 401 as an exception.
  unfoldable pub get_current_user : Option String → Exec (Store W) Value
  unfolding bearer verify_jwt admit reads ◌>>=◌
  get_current_user authorization = elim (bearer authorization) [
    | none ↦ lift (raised "Missing or invalid Authorization header")
    | some token ↦ do payload ← verify_jwt services settings token; lift (admit payload)
  ]
