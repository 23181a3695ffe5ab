-- ===== src/Prelude/Text.antt =====
-- What the program uses of Python's `str`, over the native texts.
use Prim.Native.Nat.{ℕ, zero, suc, ◌-◌, ◌/◌, ◌%◌}
use Prim.Native.Char.{Char, code}
use Prim.Native.String.{String, count, ◌++◌ as ◌<>◌}
use mathlib.Core.Path.{◌≡◌, refl, sym, ◌∙◌}
use mathlib.Core.Logic.{inl, inr}
use mathlib.Core.Bool.{Bool, true, false, ◌&&◌, ◌||◌, false≢true}
use mathlib.Core.List.{List, [], ◌∷◌}
use text.Mathlib.Text.{◌==◌, starts_with}
use text.Mathlib.TextEquality.{eq_iff}
use text.Mathlib.TextLemmas.{append-eq-nil_iff}
use package.grafux_orchestrator.Prelude.Tests.{Bool-cases, leb, ◌=ℕ◌, if◌then◌else◌}

-- `str.isspace` of one character, by code point.
pub is_space : Char → Bool
is_space c =
    let n = code c in
    (leb 9 n && leb n 13)
    || (leb 28 n && leb n 32)
    || n =ℕ 133
    || n =ℕ 160
    || n =ℕ 5760
    || (leb 8192 n && leb n 8202)
    || n =ℕ 8232
    || n =ℕ 8233
    || n =ℕ 8239
    || n =ℕ 8287
    || n =ℕ 12288

lstrip : String → String
lstrip String.[] = ""
lstrip (String.◌∷◌ c s) =
    let rest = lstrip s in elim (is_space c) [ true ↦ rest | false ↦ String.◌∷◌ c s ]

-- Drops a character that only blanks follow.
rcons : Char → String → String
rcons c s = if is_space c && s == "" then "" else String.◌∷◌ c s

-- `s.rstrip()`
unfoldable pub rstrip : String → String
unfolding rcons is_space
rstrip String.[] = ""
rstrip (String.◌∷◌ c s) = rcons c (rstrip s)

-- `s.strip()`
unfoldable pub strip : String → String
unfolding lstrip rstrip rcons is_space
strip s = rstrip (lstrip s)

-- `s[n:]`
unfoldable pub drop : ℕ → String → String
drop zero s = s
drop (suc n) String.[] = ""
drop (suc n) (String.◌∷◌ c s) = drop n s

-- `s[:n]`
unfoldable pub prefix : ℕ → String → String
prefix zero s = ""
prefix (suc n) String.[] = ""
prefix (suc n) (String.◌∷◌ c s) = String.◌∷◌ c (prefix n s)

-- `s.endswith(end)`
unfoldable pub ends_with : String → String → Bool
unfolding drop
ends_with s end = drop (count s - count end) s == end

-- `part in s`
unfoldable pub has : String → String → Bool
has String.[] part = part == ""
has (String.◌∷◌ c s) part = starts_with (String.◌∷◌ c s) part || has s part

digit : ℕ → String
digit n =
    if n =ℕ 0
    then "0"
    else if n =ℕ 1
    then "1"
    else if n =ℕ 2
    then "2"
    else if n =ℕ 3
    then "3"
    else if n =ℕ 4
    then "4"
    else if n =ℕ 5
    then "5"
    else if n =ℕ 6
    then "6"
    else if n =ℕ 7
    then "7"
    else if n =ℕ 8
    then "8"
    else "9"

digits_from : ℕ → ℕ → String → String
digits_from zero n acc = acc
digits_from (suc fuel) n acc =
    let more = digits_from fuel (n / 10) (digit (n % 10) <> acc) in
    if n / 10 =ℕ 0 then digit n <> acc else more

-- `str(n)`: a number has fewer digits than `n + 1`.
unfoldable pub show : ℕ → String
unfolding digits_from digit
show n = digits_from (suc n) n ""

-- `sep.join(parts)`
unfoldable pub join : String → List String → String
join sep [] = ""
join sep (x ∷ []) = x
join sep (x ∷ y ∷ rest) = x <> (sep <> join sep (y ∷ rest))

-- The walk of `replace`: the first argument counts the characters of a match still to skip.
replace_from : ℕ → String → String → String → String
replace_from k old new String.[] = ""
replace_from (suc k) old new (String.◌∷◌ c s) = replace_from k old new s
replace_from zero old new (String.◌∷◌ c s) = elim (starts_with (String.◌∷◌ c s) old) [
  | true ↦ new <> replace_from (count old - 1) old new s
  | false ↦ String.◌∷◌ c (replace_from zero old new s)
]

-- `s.replace(old, new)` for a text `old` that is not empty.
unfoldable pub replace : String → String → String → String
unfolding replace_from
replace s old new = replace_from 0 old new s

-- The letter at the place of `c` in the first text, taken from the second; `c` if it has none.
swap_letter : String → String → Char → Char
swap_letter (String.◌∷◌ u us) (String.◌∷◌ l ls) c =
    if code c =ℕ code u then l else swap_letter us ls c
swap_letter _ _ c = c

-- `s.lower()`, for the letters whose lower case is ASCII (the last is the Kelvin sign). Others
-- stay: the program only compares the result with ASCII words, which they never help to spell.
unfoldable pub lower : String → String
unfolding swap_letter
lower String.[] = ""
lower (String.◌∷◌ c s) =
    String.◌∷◌ (swap_letter "ABCDEFGHIJKLMNOPQRSTUVWXYZK" "abcdefghijklmnopqrstuvwxyzk" c) (lower s)

lower-mixed : lower "Yes-1" ≡ "yes-1"
unfolding lower
lower-mixed = refl

-- A text that begins with one that is not empty is not empty.
pub append_not_blank : (s t : String) → (s == "") ≡ false → ((s <> t) == "") ≡ false
append_not_blank s t h = elim (Bool-cases ((s <> t) == "")) [
  | inl e ↦
      absurd (false≢true (sym h ∙ (eq_iff s "").1 (append-eq-nil_iff.0 ((eq_iff _ "").0 e)).0))
  | inr e ↦ e
]

strip-padded : strip "  a b " ≡ "a b"
unfolding strip
strip-padded = refl

show-24 : (show 24 ≡ "24") × (show 0 ≡ "0")
unfolding show
show-24 = (refl, refl)

replace-twice : replace "x{A}y{A}" "{A}" "1" ≡ "x1y1"
unfolding replace
replace-twice = refl
