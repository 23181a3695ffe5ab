-- ===== src/Entitlements/Policy.antt =====
-- The failure policy that app/core/entitlements.py promises at its top.
use grafux_orchestrator.Prelude.{
  ℕ, String, ◌≡◌, refl, Bool, true, false, none, some, ◌==◌, leb, Bool-cases, inl, inr,
}
use grafux_orchestrator.Python.{Value, Outcome, ok, raised, cancelled}
use grafux_orchestrator.Exec.{reads, pure, skip, try_except, continue, ◌>>=◌}
use grafux_orchestrator.Exec.Outcomes.{bind-ok, try_except-ok}
use grafux_orchestrator.Entitlements.{
  Entitlements, Settings, Services, hot_key, lkg_key, includes, block_agent, read_entry, cache_read,
  cache_put, answer, fetch, cache_write, fallback, last_known_good, resolve, refreshed,
  get_entitlements, may_run_block_agents,
}

-- The backend refuses the request or fails, with a status of 400 or more, or cannot be reached.
abbrev pub IsSilent : Outcome (ℕ × Outcome Value) → Type 0
IsSilent (ok (status, body)) = leb 400 status ≡ true
IsSilent (raised e) = Unit
IsSilent cancelled = ⊥

answer_refused :
    (status : ℕ) (body : Outcome Value)
    → leb 400 status ≡ true
    → answer (some (status, body)) ≡ ok none
unfolding answer
answer_refused status body h = elim (Bool-cases (leb 500 status)) [
  | inl failed ↦ rw failed refl
  | inr other ↦ rw (other, h) refl
]

module _ {W : Type 0} (services : Services W) where
  silent_fetch :
      (token : String) (w : W) (r : Outcome (ℕ × Outcome Value))
      → (services.http_get token w).0 ≡ r
      → IsSilent r
      → (fetch services token w).0 ≡ ok none
  unfolding fetch try_except reads ◌>>=◌ continue
  silent_fetch token w (raised x) e h = rw e refl
  silent_fetch token w (ok (status, body)) e h = rw e (answer_refused status body h)
  silent_fetch token w cancelled e h = elim h [ ]

  -- A backend that does not answer with a status below 400, for whatever reason, is never taken for a
  -- backend that refuses the user's plan.
  pub fetch-silent :
      (token : String) (w : W)
      → IsSilent (services.http_get token w).0
      → (fetch services token w).0 ≡ ok none
  fetch-silent token w h = silent_fetch token w _ refl h

  -- Neither Redis nor the backend is there.
  pub record IsDown : Type 0 where
    pub error : String
    pub redis : (key : String) (w : W) → (services.redis_get key w).0 ≡ raised error
    pub backend : (token : String) (w : W) → IsSilent (services.http_get token w).0

  cache_read-down : IsDown → (key : String) (w : W) → (cache_read services key w).0 ≡ ok none
  unfolding cache_read try_except reads ◌>>=◌ continue read_entry
  cache_read-down down key w = rw (down.redis key w) refl

module _ {W : Type 0} (services : Services W) (settings : Settings) (down : IsDown services) where
  lkg-down :
      (user_id : String) (w : W)
      → (last_known_good services settings user_id w).0 ≡ ok (fallback services settings)
  unfolding last_known_good ◌>>=◌ continue reads
  lkg-down user_id w = rw (cache_read-down services down (lkg_key user_id) w) refl

  refreshed-down :
      (token user_id : String) (w : W)
      → (refreshed services settings token user_id w).0 ≡ ok (fallback services settings)
  unfolding refreshed resolve ◌>>=◌ continue
  refreshed-down token user_id w =
      rw (fetch-silent services token w (down.backend token w)) (lkg-down user_id _)

  get_entitlements-down :
      (token user_id : String) (refresh : Bool) (w : W)
      → (get_entitlements services settings token user_id refresh w).0
        ≡ ok (fallback services settings)
  unfolding get_entitlements ◌>>=◌ continue
  get_entitlements-down token user_id true w = refreshed-down token user_id w
  get_entitlements-down token user_id false w =
      rw (cache_read-down services down (hot_key user_id) w) (refreshed-down token user_id _)

  includes-fallback :
      includes block_agent (fallback services settings) ≡ (settings.entitlement_fallback == "allow")
  unfolding fallback includes
  includes-fallback = elim (Bool-cases (settings.entitlement_fallback == "allow")) [
    | inl e ↦ rw e refl
    | inr e ↦ rw e refl
  ]

  -- What the gate says of a list that is resolved to the fallback, twice.
  gate-down :
      (allows : Bool) (token user_id : String) (w : W)
      → includes block_agent (fallback services settings) ≡ allows
      → ((do
        again ← get_entitlements services settings token user_id true
        pure (includes block_agent again))
          w).0
        ≡ ok allows
  unfolding ◌>>=◌ continue reads
  gate-down allows token user_id w h = rw (get_entitlements-down token user_id true w, h) refl

  allowed :
      (allows : Bool) (token user_id : String) (w : W)
      → settings.enforce_agent_entitlement ≡ true
      → includes block_agent (fallback services settings) ≡ allows
      → (may_run_block_agents services settings token user_id w).0 ≡ ok allows
  unfolding may_run_block_agents ◌>>=◌ continue reads
  allowed true token user_id w on h = rw (on, get_entitlements-down token user_id false w, h) refl
  allowed false token user_id w on h =
      rw (on, get_entitlements-down token user_id false w, h) (gate-down false token user_id _ h)

  -- In an outage of both the backend and Redis the fallback decides alone: with `allow`, no user is
  -- refused a block agent, and with anything else every user is, where the gate is enforced.
  pub may_run_block_agents-down :
      (token user_id : String) (w : W)
      → settings.enforce_agent_entitlement ≡ true
      → (may_run_block_agents services settings token user_id w).0
        ≡ ok (settings.entitlement_fallback == "allow")
  may_run_block_agents-down token user_id w on = allowed _ token user_id w on includes-fallback

module _ {W : Type 0} (services : Services W) (settings : Settings) where
  -- Redis takes what it is given for this key, and answers with it afterwards.
  pub record IsKept (key : String) : Type 0 where
    pub taken : (ttl : ℕ) (v : String) (w : W) → (services.redis_setex key ttl v w).0 ≡ ok tt
    pub found :
        (ttl : ℕ) (v : String) (w : W)
        → (services.redis_get key (services.redis_setex key ttl v w).1).0 ≡ ok (some v)

  cache_put-kept :
      (key : String) (ttl : ℕ) (v : String) (w : W)
      → IsKept key
      → cache_put services key ttl v w ≡ (ok tt, (services.redis_setex key ttl v w).1)
  unfolding cache_put
  cache_put-kept key ttl v w kept =
      try_except-ok (services.redis_setex key ttl v) (λ exc. skip) w tt (kept.taken ttl v w)

  cache_read-kept :
      (key payload : String) (ttl : ℕ) (es : Entitlements) (w : W)
      → IsKept key
      → read_entry services (some payload) ≡ some es
      → (cache_read services key (services.redis_setex key ttl payload w).1).0 ≡ ok (some es)
  unfolding cache_read ◌>>=◌ continue reads
  cache_read-kept key payload ttl es w kept readable =
      rw
        (
          try_except-ok (services.redis_get key) (λ e. pure none)
              (services.redis_setex key ttl payload w).1 (some payload) (kept.found ttl payload w),
          readable,
        )
        refl

  cache_write-kept :
      (user_id payload : String) (es : Entitlements) (w : W)
      → services.dumps es ≡ ok payload
      → IsKept (hot_key user_id)
      → IsKept (lkg_key user_id)
      → cache_write services settings user_id es w ≡ (
        ok tt,
        (services.redis_setex
            (lkg_key user_id)
            settings.entitlement_lkg_ttl
            payload
            (services.redis_setex (hot_key user_id) settings.entitlement_cache_ttl payload w).1).1,
      )
  unfolding cache_write ◌>>=◌ continue reads
  cache_write-kept user_id payload es w dumped hot lkg =
      rw (dumped, cache_put-kept (hot_key user_id) settings.entitlement_cache_ttl payload w hot)
        (cache_put-kept (lkg_key user_id) settings.entitlement_lkg_ttl payload _ lkg)

  resolve-kept :
      (user_id payload : String) (es back : Entitlements) (w : W)
      → services.dumps es ≡ ok payload
      → read_entry services (some payload) ≡ some back
      → IsKept (hot_key user_id)
      → IsKept (lkg_key user_id)
      → ((resolve services settings user_id (some es) w).0 ≡ ok es)
        × ((last_known_good services settings user_id
              (resolve services settings user_id (some es) w).1).0
            ≡ ok back)
  unfolding resolve last_known_good ◌>>=◌ continue reads
  resolve-kept user_id payload es back w dumped readable hot lkg =
      let written = cache_write-kept user_id payload es w dumped hot lkg in
      (
        rw written refl,
        rw
            (
              written,
              cache_read-kept (lkg_key user_id) payload settings.entitlement_lkg_ttl back
                  (services.redis_setex (hot_key user_id) settings.entitlement_cache_ttl payload
                    w).1
                  lkg readable,
            )
            refl,
      )

  -- If Redis keeps the two keys of the user, and the answer of the backend, a refusal as well, can be
  -- written as JSON and read again, then right after a refresh the last-known-good cache says what the
  -- written answer is read as, whatever it said before: a stale yes does not outlive a real no.
  pub refreshed-overwrites :
      (token user_id payload : String) (es back : Entitlements) (w : W)
      → (fetch services token w).0 ≡ ok (some es)
      → services.dumps es ≡ ok payload
      → read_entry services (some payload) ≡ some back
      → IsKept (hot_key user_id)
      → IsKept (lkg_key user_id)
      → ((refreshed services settings token user_id w).0 ≡ ok es)
        × ((last_known_good services settings user_id
              (refreshed services settings token user_id w).1).0
            ≡ ok back)
  unfolding refreshed
  refreshed-overwrites token user_id payload es back w answered dumped readable hot lkg =
      rw (bind-ok (fetch services token) (resolve services settings user_id) w (some es) answered)
        (resolve-kept user_id payload es back (fetch services token w).1 dumped readable hot lkg)
