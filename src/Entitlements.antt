-- ===== src/Entitlements.antt =====
-- app/core/entitlements.py: what a user's plan allows, from the backend and two caches in Redis.
pub mod Policy
mod Tests
use grafux_orchestrator.Prelude.{
  ℕ, ◌<>◌, String, Bool, true, false, not, ◌&&◌, ◌||◌, Option, none, some, List, [], ◌∷◌, ◌==◌, leb,
  if◌then◌else◌,
}
use grafux_orchestrator.Python.{
  Value, null, flag, num, neg, real, text, arr, obj, Items, nil, cons, Fields, end, field,
  get_truthy, get, get_or, type_name, Outcome, ok, raised, cancelled,
}
use grafux_orchestrator.Exec.{Exec, reads, pure, lift, gets, skip, try_except, ◌>>=◌, ◌>>◌}

-- A set of JSON values, by its elements. Only membership is asked.
abbrev pub Entitlements : Type 0
Entitlements = List Value

-- The settings that the module reads.
pub record Settings : Type 0 where
  pub entitlement_cache_ttl : ℕ
  pub entitlement_lkg_ttl : ℕ
  pub entitlement_fallback : String
  pub enforce_agent_entitlement : Bool

-- Redis, the backend's route, and `json`. A response is its status and what `resp.json()` gives;
-- `dumps` is `json.dumps(sorted(…))`, which fails on values that cannot be compared.
pub record Services (W : Type 0) : Type 0 where
  pub redis_get : String → W → Outcome (Option String) × W
  pub redis_setex : String → ℕ → String → W → Outcome (Unit {0}) × W
  pub http_get : String → W → Outcome (ℕ × Outcome Value) × W
  pub loads : String → Outcome Value
  pub dumps : Entitlements → Outcome String

abbrev pub block_agent : String
block_agent = "block_agent"

abbrev pub hot_key : String → String
hot_key user_id = "ent:user:" <> user_id

abbrev pub lkg_key : String → String
lkg_key user_id = "ent:lkg:user:" <> user_id

-- `BLOCK_AGENT in entitlements`
unfoldable pub includes : String → Entitlements → Bool
includes name [] = false
includes name (text s ∷ vs) = s == name || includes name vs
includes name (v ∷ vs) = includes name vs

-- The elements of a list, all of which have to be hashable: a list or a `dict` is not.
unfoldable pub elements : Items → Outcome Entitlements
elements nil = ok []
elements (cons v vs) =
    let more = elements vs in
    elim v [
      | arr shown ws ↦ raised "unhashable type: 'list'"
      | obj shown fs ↦ raised "unhashable type: 'dict'"
      | other ↦ elim more [ ok es ↦ ok (other ∷ es) | raised e ↦ raised e | cancelled ↦ cancelled ]
    ]

unfoldable pub characters : String → Entitlements
characters String.[] = []
characters (String.◌∷◌ c s) = text (String.◌∷◌ c String.[]) ∷ characters s

unfoldable pub keys : Fields → Entitlements
keys end = []
keys (field k v fs) = text k ∷ keys fs

-- `set(v)`
unfoldable pub as_set : Value → Outcome Entitlements
unfolding elements characters keys
as_set (arr shown vs) = elements vs
as_set (text s) = ok (characters s)
as_set (obj shown fs) = ok (keys fs)
as_set v = raised ("'" <> (type_name v <> "' object is not iterable"))

unfoldable pub optional : Outcome Entitlements → Option Entitlements
optional (ok es) = some es
optional r = none

-- `data` of the envelope, if it is a `dict`.
unfoldable pub envelope : Value → Option Fields
unfolding get_or
envelope (obj shown fs) = elim (get_or "data" null fs) [
  | obj shown data_fields ↦ some data_fields
  | _ ↦ none
]
envelope v = none

unfoldable pub granted : Option Fields → Outcome (Option Entitlements)
unfolding get_truthy as_set
granted none = ok none
granted (some data_fields) = elim (as_set (get_truthy "entitlements" data_fields)) [
  | ok es ↦ ok (some es)
  | raised e ↦ raised e
  | cancelled ↦ cancelled
]

-- What a response says: `None` if it is no answer.
unfoldable pub answer : Option (ℕ × Outcome Value) → Outcome (Option Entitlements)
unfolding envelope granted
answer none = ok none
answer (some (status, body)) =
    if leb 500 status
    then ok none
    else if leb 400 status
    then ok none
    else elim body [ ok v ↦ granted (envelope v) | raised e ↦ ok none | cancelled ↦ cancelled ]

module _ {W : Type 0} (services : Services W) where
  -- What an entry of a cache says, if it can be read.
  unfoldable pub read_entry : Option String → Option Entitlements
  unfolding optional as_set
  read_entry none = none
  read_entry (some raw) =
      if raw == ""
      then none
      else elim (services.loads raw) [ ok v ↦ optional (as_set v) | _ ↦ none ]

  -- `_cache_read`
  unfoldable pub cache_read : String → Exec W (Option Entitlements)
  unfolding read_entry try_except reads ◌>>=◌
  cache_read key = do
    raw ← try_except (services.redis_get key) (λ exc. pure none)
    pure (read_entry raw)

  -- One turn of the loop in `_cache_write`.
  unfoldable pub cache_put : String → ℕ → String → Exec W (Unit {0})
  unfolding try_except reads
  cache_put key ttl payload = try_except (services.redis_setex key ttl payload) (λ exc. skip)

  -- `_fetch`
  unfoldable pub fetch : String → Exec W (Option Entitlements)
  unfolding answer try_except reads ◌>>=◌
  fetch token = do
    response ←
        try_except (do response ← services.http_get token; pure (some response)) (λ exc. pure none)
    lift (answer response)

module _ {W : Type 0} (services : Services W) (settings : Settings) where
  -- `_cache_write`
  unfoldable pub cache_write : String → Entitlements → Exec W (Unit {0})
  unfolding cache_put reads ◌>>=◌
  cache_write user_id entitlements = do
    payload ← lift (services.dumps entitlements)
    cache_put services (hot_key user_id) settings.entitlement_cache_ttl payload
    cache_put services (lkg_key user_id) settings.entitlement_lkg_ttl payload

  -- The fallback of the settings.
  unfoldable pub fallback : Entitlements
  fallback = if settings.entitlement_fallback == "allow" then text block_agent ∷ [] else []

  -- The backend has given no answer.
  unfoldable pub last_known_good : String → Exec W Entitlements
  unfolding cache_read fallback reads ◌>>=◌
  last_known_good user_id = do
    lkg ← cache_read services (lkg_key user_id)
    pure (elim lkg [ some es ↦ es | none ↦ fallback ])

  unfoldable pub resolve : String → Option Entitlements → Exec W Entitlements
  unfolding cache_write last_known_good reads ◌>>=◌
  resolve user_id (some fetched) = do cache_write user_id fetched; pure fetched
  resolve user_id none = last_known_good user_id

  -- `get_entitlements` past the hot cache
  unfoldable pub refreshed : String → String → Exec W Entitlements
  unfolding fetch resolve ◌>>=◌
  refreshed token user_id = do fetched ← fetch services token; resolve user_id fetched

  -- `get_entitlements`
  unfoldable pub get_entitlements : String → String → Bool → Exec W Entitlements
  unfolding refreshed cache_read reads ◌>>=◌
  get_entitlements token user_id refresh =
      let ask = refreshed token user_id in
      if refresh then ask else do
        cached ← cache_read services (hot_key user_id)
        elim cached [ some es ↦ pure es | none ↦ ask ]

  -- `may_run_block_agents`
  unfoldable pub may_run_block_agents : String → String → Exec W Bool
  unfolding get_entitlements includes reads ◌>>=◌
  may_run_block_agents token user_id =
      if not settings.enforce_agent_entitlement then pure true else do
        entitlements ← get_entitlements token user_id false
        if includes block_agent entitlements
            then pure true
            else do again ← get_entitlements token user_id true; pure (includes block_agent again)
