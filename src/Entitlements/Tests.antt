-- ===== src/Entitlements/Tests.antt =====
-- Services for tests, and the theorems on entitlements at concrete data.
use grafux_orchestrator.Prelude.{
  String, ◌≡◌, refl, true, Option, some, [], ◌∷◌, ◌==◌, if◌then◌else◌,
}
use grafux_orchestrator.Python.{
  text, arr, obj, Items, nil, cons, end, field, get_truthy, truthy, ok, raised,
}
use grafux_orchestrator.Entitlements.{
  Entitlements, Settings, Services, lkg_key, hot_key, read_entry, fetch, refreshed, last_known_good,
  may_run_block_agents,
}
use grafux_orchestrator.Entitlements.Policy.{
  IsDown, may_run_block_agents-down, IsKept, refreshed-overwrites,
}

abbrev settings : Settings
settings = record {
  entitlement_cache_ttl = 60;
  entitlement_lkg_ttl = 600;
  entitlement_fallback = "allow";
  enforce_agent_entitlement = true;
}

-- Nothing is there.
abbrev gone : Services (Unit {0})
gone = record {
  redis_get = λ key w. (raised "down", w);
  redis_setex = λ key ttl v w. (raised "down", w);
  http_get = λ token w. (ok (502, raised "no json"), w);
  loads = λ s. raised "no json";
  dumps = λ es. ok "";
}

-- The backend names two entitlements, which `sorted` writes in another order; Redis keeps its entries.
abbrev Entries : Type 0
Entries = String → Option String

abbrev named : Items
named = cons (text "exports") (cons (text "clouds") nil)

abbrev written : String
written = "[\"clouds\", \"exports\"]"

abbrev kept : Services Entries
kept = record {
  redis_get = λ key w. (ok (w key), w);
  redis_setex = λ key ttl v w. (ok tt, λ k. if k == key then some v else w k);
  http_get = λ token w. (
    ok (200, ok (obj "" (field "data" (obj "" (field "entitlements" (arr "" named) end)) end))),
    w,
  );
  loads = λ s.
      if s == written
      then ok (arr "" (cons (text "clouds") (cons (text "exports") nil)))
      else if s == "[\"block_agent\"]"
      then ok (arr "" (cons (text "block_agent") nil))
      else raised "no JSON";
  dumps = λ es. ok written;
}

all_down : IsDown gone
all_down = record { error = "down"; redis = λ key w. refl; backend = λ token w. refl }

may_run_block_agents-down_example :
    (may_run_block_agents gone settings "t" "u" tt).0
    ≡ ok (settings.entitlement_fallback == "allow")
may_run_block_agents-down_example = may_run_block_agents-down gone settings all_down "t" "u" tt refl

abbrev before : Entries
before k = some "[\"block_agent\"]"

abbrev answered : Entitlements
answered = text "exports" ∷ text "clouds" ∷ []

abbrev read_back : Entitlements
read_back = text "clouds" ∷ text "exports" ∷ []

fetched : (fetch kept "t" before).0 ≡ ok (some answered)
unfolding fetch get_truthy truthy
fetched = refl

readable : read_entry kept (some written) ≡ some read_back
unfolding read_entry
readable = refl

hot_kept : IsKept kept settings (hot_key "u")
hot_kept = record { taken = λ ttl v w. refl; found = λ ttl v w. refl }

lkg_kept : IsKept kept settings (lkg_key "u")
lkg_kept = record { taken = λ ttl v w. refl; found = λ ttl v w. refl }

refreshed-overwrites_example :
    ((refreshed kept settings "t" "u" before).0 ≡ ok answered)
    × ((last_known_good kept settings "u" (refreshed kept settings "t" "u" before).1).0
        ≡ ok read_back)
refreshed-overwrites_example =
    refreshed-overwrites kept settings "t" "u" written answered read_back before fetched refl
      readable hot_kept lkg_kept
