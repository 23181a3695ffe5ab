-- ===== src/Security/Tests.antt =====
-- Services for tests, and the theorems on the token checks at concrete data.
use grafux_orchestrator.Prelude.{
  String, ◌≡◌, ◌≢◌, refl, true, Option, none, some, [], ◌∷◌, ◌==◌, ◌↔◌, if◌then◌else◌,
}
use grafux_orchestrator.Python.{text, Fields, end, field, get, ok, raised}
use grafux_orchestrator.Exec.Outcomes.{Yields, IsCalm}
use grafux_orchestrator.Security.{
  Services, Settings, Store, cached_keys, drop_slashes, fetch_jwks, try_cache, readable,
  verify_supabase_jwt, verify_jwt, require_internal_service, bearer,
}
use grafux_orchestrator.Security.Trust.{IsVouched, Known, verify_jwt-IsVouched}
use grafux_orchestrator.Security.Refusal.{verify_jwt-IsCalm, require_internal_service-true_iff}
use grafux_orchestrator.Security.Issuer.{IsForged, fetch_jwks-again}

abbrev es_header : Fields
es_header = field "alg" (text "ES256") (field "kid" (text "k1") end)

abbrev no_header : Fields
no_header = field "alg" (text "none") end

abbrev mallory : String
mallory = "https://mallory.example"

abbrev mallory_key : Fields
mallory_key = field "kid" (text "k1") end

abbrev admin : Fields
admin = field "sub" (text "admin") end

-- One token, made by a stranger and verified by the stranger's key; Redis is down.
abbrev services : Services (Unit {0}) String
services = record {
  redis_get = λ key w. (raised "down", w);
  redis_setex = λ key ttl v w. (raised "down", w);
  fetch_keys = λ url w. (
    if url == "https://mallory.example/.well-known/jwks.json"
        then ok (mallory_key ∷ [])
        else raised "404",
    w,
  );
  sha256 = λ s. s;
  loads = λ s. ok (text s);
  dumps = λ fs. "";
  unverified_header = λ t. ok (if t == "forged" then es_header else no_header);
  unverified_claims = λ t. ok (field "iss" (text mallory) end);
  from_jwk = λ k. ok "mallory";
  decode_hs256 = λ t secret. raised "bad signature";
  decode_es256 = λ t key. if key == "mallory" then ok admin else raised "bad signature";
}

abbrev settings : Settings
settings = record { supabase_jwt_secret = "s"; auth_cache_ttl = 60; internal_service_secret = "x" }

abbrev empty : Store (Unit {0})
empty = record { jwks_cache = []; world = tt }

bearer_token : bearer (some "Bearer  abc ") ≡ some "abc"
unfolding bearer
bearer_token = refl

forgery : IsForged services "forged" mallory admin empty
unfolding get cached_keys drop_slashes
forgery = record {
  header = es_header;
  claims = field "iss" (text mallory) end;
  kid = "k1";
  jwk = end;
  key = "mallory";
  read_header = refl;
  es256 = refl;
  read_claims = refl;
  named = refl;
  not_empty = refl;
  bare = refl;
  unknown = refl;
  served = refl;
  readable = refl;
  signed = refl;
}

verify_jwt-IsVouched_example :
    Yields
      (Known services settings (IsVouched services settings "forged"))
      (verify_jwt services settings "forged")
verify_jwt-IsVouched_example = verify_jwt-IsVouched services settings "forged"

verify_jwt-IsCalm_example :
    IsCalm (verify_jwt services settings "plain")
    × ((verify_jwt services settings "plain" empty).0 ≡ ok none)
unfolding try_cache readable verify_supabase_jwt
verify_jwt-IsCalm_example = verify_jwt-IsCalm services settings "plain" empty

abbrev sent_secret : Option String
sent_secret = some "x"

require_internal_service-true_iff_example :
    (require_internal_service settings sent_secret ≡ true) ↔ (
      (sent_secret ≡ some settings.internal_service_secret)
      × (settings.internal_service_secret ≢ ""))
require_internal_service-true_iff_example = require_internal_service-true_iff settings sent_secret

mallory_keys : (fetch_jwks services mallory empty).0 ≡ ok (mallory_key ∷ [])
unfolding fetch_jwks
mallory_keys = refl

fetch_jwks-again_example :
    fetch_jwks services mallory (fetch_jwks services mallory empty).1
    ≡ (ok (mallory_key ∷ []), (fetch_jwks services mallory empty).1)
fetch_jwks-again_example = fetch_jwks-again services mallory (mallory_key ∷ []) empty mallory_keys
