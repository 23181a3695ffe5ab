-- ===== src/Security/Issuer.antt =====
-- Whose keys the ES256 branch of app/core/security.py asks for, and how often.
use grafux_orchestrator.Prelude.{
  String, ◌<>◌, ◌==◌, ◌≡◌, refl, ◌∙◌, false, Option, none, some, List, [], ◌∷◌, eq_refl,
}
use grafux_orchestrator.Python.{text, Fields, field, get, Outcome, ok, raised, cancelled}
use grafux_orchestrator.Exec.{reads, modify, continue, ◌>>=◌}
use grafux_orchestrator.Security.{
  Services, Store, jwks_url, cached_keys, drop_slashes, call, fetch_jwks,
}

module _ {W Key : Type 0} (services : Services W Key) where
  -- Somebody has made a token that names his own server as the issuer, by an address without a slash
  -- at its end, and signed it with the one key that this server serves. Nobody has named the server
  -- before.
  pub record IsForged (token issuer : String) (payload : Fields) (s : Store W) : Type 0 where
    pub header : Fields
    pub claims : Fields
    pub kid : String
    pub jwk : Fields
    pub key : Key
    pub read_header : services.unverified_header token ≡ ok header
    pub es256 : get "alg" header ≡ some (text "ES256")
    pub read_claims : services.unverified_claims token ≡ ok claims
    pub named : get "iss" claims ≡ some (text issuer)
    pub not_empty : (issuer == "") ≡ false
    pub bare : drop_slashes issuer ≡ issuer
    pub unknown : cached_keys issuer s.jwks_cache ≡ none
    pub served :
        (services.fetch_keys (issuer <> "/.well-known/jwks.json") s.world).0
        ≡ ok (field "kid" (text kid) jwk ∷ [])
    pub readable : services.from_jwk (field "kid" (text kid) jwk) ≡ ok key
    pub signed : services.decode_es256 token key ≡ ok payload

  -- The store once the server was asked for its keys, and nobody else for anything.
  abbrev pub asked_only : String → List Fields → Store W → Store W
  asked_only issuer keys s = record {
    jwks_cache = (issuer, keys) ∷ s.jwks_cache;
    world = (services.fetch_keys (issuer <> "/.well-known/jwks.json") s.world).1;
  }

  known :
      (issuer : String) (keys : List Fields) (s : Store W)
      → cached_keys issuer s.jwks_cache ≡ some keys
      → fetch_jwks services issuer s ≡ (ok keys, s)
  unfolding fetch_jwks reads ◌>>=◌ continue
  known issuer keys s h = rw h refl

  newly :
      (issuer : String) (keys : List Fields) (s : Store W)
      → cached_keys issuer (record s { jwks_cache = (issuer, keys) ∷ s.jwks_cache }).jwks_cache
        ≡ some keys
  unfolding cached_keys
  newly issuer keys s = rw (eq_refl issuer) refl

  -- The cache after the keys were asked for, by what was known and what is answered.
  asked-cached :
      (issuer : String) (keys : List Fields) (s : Store W) (o : Option (List Fields))
      (r : Outcome (List Fields))
      → cached_keys issuer s.jwks_cache ≡ o
      → (services.fetch_keys (jwks_url issuer) s.world).0 ≡ r
      → (fetch_jwks services issuer s).0 ≡ ok keys
      → cached_keys issuer (fetch_jwks services issuer s).1.jwks_cache ≡ some keys
  unfolding fetch_jwks call modify reads ◌>>=◌ continue
  asked-cached issuer keys s (some ks) r e f h = let k = (rw e at h) in rw e (cc)
  asked-cached issuer keys s none (ok ks) e f h =
      let k = (rw (e, f) at h) in
      rw (e, f)
        (newly issuer ks (record s { world = (services.fetch_keys (jwks_url issuer) s.world).1 })
          ∙ cc)
  asked-cached issuer keys s none (raised x) e f h = let k = (rw (e, f) at h) in absurd cc
  asked-cached issuer keys s none cancelled e f h = let k = (rw (e, f) at h) in absurd cc

  fetch_jwks-cached :
      (issuer : String) (keys : List Fields) (s : Store W)
      → (fetch_jwks services issuer s).0 ≡ ok keys
      → cached_keys issuer (fetch_jwks services issuer s).1.jwks_cache ≡ some keys
  fetch_jwks-cached issuer keys s h = asked-cached issuer keys s _ _ refl refl h

  -- Once the keys of an issuer were fetched, they are remembered: a second call answers the same keys
  -- and asks nobody.
  pub fetch_jwks-again :
      (issuer : String) (keys : List Fields) (s : Store W)
      → (fetch_jwks services issuer s).0 ≡ ok keys
      → fetch_jwks services issuer (fetch_jwks services issuer s).1
        ≡ (ok keys, (fetch_jwks services issuer s).1)
  fetch_jwks-again issuer keys s h =
      known issuer keys (fetch_jwks services issuer s).1 (fetch_jwks-cached issuer keys s h)
