-- ===== src/Prelude/Tables.antt =====
-- Python dictionaries with text keys, as lists of pairs in the order of insertion.
use mathlib.Core.Path.{◌≡◌, refl}
use mathlib.Core.Logic.{◌≢◌}
use mathlib.Core.Bool.{Bool, true, false}
use mathlib.Core.Option.{Option, none, some}
use mathlib.Core.List.{List, [], ◌∷◌}
use native.Mathlib.Omega.{arith}
use Prim.Native.String.{String}
use text.Mathlib.Text.{◌==◌}
use text.Mathlib.TextEquality.{eq_iff}
use package.grafux_orchestrator.Prelude.Tests.{if◌then◌else◌}

abbrev pub Table {ℓ} : Type ℓ → Type ℓ
Table A = List (String × A)

-- The tests stand in the order `sought == stored`.
module _ {ℓ} {A : Type ℓ} where
  -- `d.get(key)`
  unfoldable pub find : String → Table A → Option A
  find key [] = none
  find key ((k, a) ∷ d) = let rest = find key d in if key == k then some a else rest

  -- `key in d`
  unfoldable pub holds : String → Table A → Bool
  holds key [] = false
  holds key ((k, a) ∷ d) = let rest = holds key d in if key == k then true else rest

  -- `d[key] = a`
  unfoldable pub assign : String → A → Table A → Table A
  assign key a [] = (key, a) ∷ []
  assign key a ((k, b) ∷ d) =
      let rest = assign key a d in if key == k then (key, a) ∷ d else (k, b) ∷ rest

  -- `d.pop(key, None)`
  unfoldable pub without_key : String → Table A → Table A
  without_key key [] = []
  without_key key ((k, a) ∷ d) =
      let rest = without_key key d in if key == k then rest else (k, a) ∷ rest

  -- `d.setdefault(key, a)`
  unfoldable pub set_default : String → A → Table A → Table A
  unfolding holds
  set_default key a d = if holds key d then d else assign key a d

  pub find-assign :
      (j k : String) (a : A) (d : Table A)
      → find j (assign k a d) ≡ (if j == k then some a else find j d)
  unfolding find assign
  find-assign j k a [] = refl
  find-assign j k a ((i, b) ∷ d) =
      ground (arith, eq_iff j k, eq_iff k i, eq_iff j i, find-assign j k a d)

  pub find-without_key : (k : String) (d : Table A) → find k (without_key k d) ≡ none
  unfolding find without_key
  find-without_key k [] = refl
  find-without_key k ((i, b) ∷ d) = ground (arith, find-without_key k d)

  pub find-without_key_ne :
      (j k : String) (d : Table A) → (j == k) ≡ false → find j (without_key k d) ≡ find j d
  unfolding find without_key
  find-without_key_ne j k [] h = refl
  find-without_key_ne j k ((i, b) ∷ d) h =
      ground (arith, eq_iff j k, eq_iff k i, eq_iff j i, find-without_key_ne j k d h)

  pub holds-assign :
      (j k : String) (a : A) (d : Table A)
      → holds j (assign k a d) ≡ (if j == k then true else holds j d)
  unfolding holds assign
  holds-assign j k a [] = refl
  holds-assign j k a ((i, b) ∷ d) =
      ground (arith, eq_iff j k, eq_iff k i, eq_iff j i, holds-assign j k a d)

  find-holds : (k : String) (b : A) (d : Table A) → find k d ≡ some b → holds k d ≡ true
  unfolding find holds
  find-holds k b [] h = absurd cc
  find-holds k b ((i, c) ∷ d) h = ground (arith, find-holds k b d)

  pub find-set_default :
      (k : String) (a b : A) (d : Table A) → find k d ≡ some b → find k (set_default k a d) ≡ some b
  unfolding set_default
  find-set_default k a b d h = rw (find-holds k b d h) h

  pub holds-some : (k : String) (d : Table A) → holds k d ≡ true → find k d ≢ none
  unfolding find holds
  holds-some k [] h = λ e. cc
  holds-some k ((i, c) ∷ d) h = λ e. ground (arith, holds-some k d)
