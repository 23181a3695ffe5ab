-- ===== src/Python.antt =====
-- The Python values that the program handles as `Any`: JSON values and dictionaries of them,
-- with `str()`, truth, `dict.get`, and exceptions as results.
pub mod Laws
use grafux_orchestrator.Prelude.{
  ℕ, suc, String, count, ◌<>◌, ◌==◌, Bool, true, false, not, Option, none, some, show, strip, ◌=ℕ◌,
  if◌then◌else◌,
}

-- `neg n` is the integer -(n + 1). Floats, lists and dictionaries carry the text that `str()`
-- makes of them, which the program passes on and never takes apart.
mutual
  pub data Value : Type 0 where
    null : Value
    flag : Bool → Value
    num : ℕ → Value
    neg : ℕ → Value
    real : (shown : String) → (nonzero : Bool) → Value
    text : String → Value
    arr : (shown : String) → Items → Value
    obj : (shown : String) → Fields → Value

  pub data Items : Type 0 where
    nil : Items
    cons : Value → Items → Items

  -- A `dict` with text keys, in the order of insertion.
  pub data Fields : Type 0 where
    end : Fields
    field : String → Value → Fields → Fields

-- `bool(v)`
unfoldable pub truthy : Value → Bool
truthy null = false
truthy (flag b) = b
truthy (num n) = not (n =ℕ 0)
truthy (neg n) = true
truthy (real shown nonzero) = nonzero
truthy (text s) = not (s == "")
truthy (arr shown nil) = false
truthy (arr shown (cons v vs)) = true
truthy (obj shown end) = false
truthy (obj shown (field k v fs)) = true

-- `str(v)`
unfoldable pub to_str : Value → String
to_str null = "None"
to_str (flag true) = "True"
to_str (flag false) = "False"
to_str (num n) = show n
to_str (neg n) = "-" <> show (suc n)
to_str (real shown nonzero) = shown
to_str (text s) = s
to_str (arr shown vs) = shown
to_str (obj shown fs) = shown

-- `d.get(key)`
unfoldable pub get : String → Fields → Option Value
get key end = none
get key (field k v fs) = if k == key then some v else get key fs

-- `d.get(key, default)`
unfoldable pub get_or : String → Value → Fields → Value
unfolding get
get_or key default fs = elim (get key fs) [ none ↦ default | some v ↦ v ]

-- `d[key] = v`
unfoldable pub put : String → Value → Fields → Fields
put key v end = field key v end
put key v (field k w fs) = if k == key then field key v fs else field k w (put key v fs)

-- `str(d.get(key, "")).strip()`
unfoldable pub word : String → Fields → String
unfolding get_or to_str strip
word key fs = strip (to_str (get_or key (text "") fs))

-- `d.get(key) or ""`: the value, or the empty text for a false one.
unfoldable pub get_truthy : String → Fields → Value
unfolding get_or truthy
get_truthy key fs = let v = get_or key null fs in if truthy v then v else text ""

-- `s or default`, for texts.
abbrev pub or_text : String → String → String
or_text s default = if s == "" then default else s

-- A computation returns, raises an `Exception` with a message, or is cancelled: a
-- `CancelledError` is no `Exception`, and `except Exception` lets it pass.
pub data Outcome {ℓ} (A : Type ℓ) : Type ℓ where
  ok : A → Outcome A
  raised : String → Outcome A
  cancelled : Outcome A

-- `type(v).__name__`
abbrev pub type_name : Value → String
type_name null = "NoneType"
type_name (flag b) = "bool"
type_name (num n) = "int"
type_name (neg n) = "int"
type_name (real shown nonzero) = "float"
type_name (text s) = "str"
type_name (arr shown vs) = "list"
type_name (obj shown fs) = "dict"

-- `v.strip()`, which only texts have.
unfoldable pub value_strip : Value → Outcome String
unfolding strip
value_strip (text s) = ok (strip s)
value_strip v = raised ("'" <> (type_name v <> "' object has no attribute 'strip'"))

unfoldable pub count_items : Items → ℕ
count_items nil = 0
count_items (cons v vs) = suc (count_items vs)

unfoldable pub count_fields : Fields → ℕ
count_fields end = 0
count_fields (field k v fs) = suc (count_fields fs)

-- `len(v)`
unfoldable pub len : Value → Outcome ℕ
unfolding count_items count_fields
len (text s) = ok (count s)
len (arr shown vs) = ok (count_items vs)
len (obj shown fs) = ok (count_fields fs)
len v = raised ("object of type '" <> (type_name v <> "' has no len()"))
