-- ===== src/CanvasTools/Laws.antt =====
-- What an action keeps of the tool call that it was made from.
use grafux_orchestrator.Prelude.{
  String, ◌≡◌, refl, ◌∙◌, Bool, true, false, Option, none, some, List, [], ◌∷◌, ◌==◌, arith, All,
  strip, Bool-cases, inl, inr, if◌then◌else◌,
}
use grafux_orchestrator.Python.{
  Value, null, text, to_str, Fields, get, Outcome, ok, raised, cancelled,
}
use grafux_orchestrator.Python.Laws.{get-put_ne}
use grafux_orchestrator.CanvasTools.{
  copied, copy_keys, present, with_target, aimed_action, targeted_action, start_action,
  create_action, resolve_target, function_call_to_action, targeted_keys, create_keys,
}

get-copied :
    (change : Value → Value) (key j : String) (o : Option Value) (action : Fields)
    → (key == j) ≡ false
    → get j (copied change key o action) ≡ get j action
unfolding copied
get-copied change key j none action h = refl
get-copied change key j (some null) action h = refl
get-copied change key j (some v) action h = get-put_ne key j _ action h

get-present :
    (key j : String) (o : Option Value) (action : Fields)
    → (key == j) ≡ false
    → get j (present key o action) ≡ get j action
unfolding present
get-present key j none action h = refl
get-present key j (some v) action h = get-put_ne key j v action h

-- None of the keys is `j`.
abbrev Avoids : String → List String → Type 0
Avoids j keys = All (λ key. (key == j) ≡ false) keys

get-copy_keys :
    (change : Value → Value) (args : Fields) (keys : List String) (j : String) (action : Fields)
    → Avoids j keys
    → get j (copy_keys change args keys action) ≡ get j action
unfolding copy_keys
get-copy_keys change args [] j action h = refl
get-copy_keys change args (key ∷ keys) j action h =
    get-copy_keys change args keys j _ h.1 ∙ get-copied change key j (get key args) action h.0

get-with_target :
    (target : String) (action : Fields) → get "type" (with_target target action) ≡ get "type" action
unfolding with_target
get-with_target target action = elim (Bool-cases (target == "")) [
  | inl e ↦ rw e
  | inr e ↦ rw e (get-put_ne "target_block" "type" (text target) action refl)
]

-- The keys that the mapping copies are other than `type` and `target_block`.
targeted_keys-Avoids : Avoids "type" targeted_keys × Avoids "target_block" targeted_keys
targeted_keys-Avoids = ground arith

other_keys-Avoids :
    Avoids "type" create_keys
    × Avoids "type" ("from_block" ∷ "from_port" ∷ "to_block" ∷ "to_port" ∷ [])
    × Avoids "type" ("block_type" ∷ "category" ∷ "block_name" ∷ [])
other_keys-Avoids = ground arith

-- If the call is mapped, the action has the call's name for its type.
record IsTyped (name : String) (r : Outcome (Option Fields)) : Type 0 where
  at : (action : Fields) → r ≡ ok (some action) → get "type" action ≡ some (text name)

IsTyped-ok :
    {name : String} {action : Fields}
    → get "type" action ≡ some (text name)
    → IsTyped name (ok (some action))
IsTyped-ok h = record { at = λ b e. cc }

IsTyped-none : (name : String) → IsTyped name (ok none)
IsTyped-none name = record { at = λ b e. cc }

IsTyped-if :
    {name : String} (b : Bool) {r q : Outcome (Option Fields)}
    → IsTyped name r
    → IsTyped name q
    → IsTyped name (if b then r else q)
IsTyped-if true hr hq = hr
IsTyped-if false hr hq = hq

module _ (name : String) (args : Fields) where
  create-IsTyped : get "type" (create_action name args) ≡ some (text name)
  unfolding create_action get
  create-IsTyped =
      get-present "connections" "type" (get "connections" args) _ refl
      ∙ get-present "outputs" "type" (get "outputs" args) _ refl
      ∙ get-present "inputs" "type" (get "inputs" args) _ refl
      ∙ get-copy_keys (λ v. v) args create_keys "type" _ other_keys-Avoids.0

  copied-IsTyped :
      (change : Value → Value) (keys : List String)
      → Avoids "type" keys
      → get "type" (copy_keys change args keys (start_action name)) ≡ some (text name)
  unfolding get
  copied-IsTyped change keys h = get-copy_keys change args keys "type" (start_action name) h

  aimed-IsTyped :
      (blocks : List Fields) (r : Outcome String) → IsTyped name (aimed_action name args blocks r)
  unfolding aimed_action get
  aimed-IsTyped blocks (ok target) =
      let action = with_target (resolve_target target blocks) (start_action name) in
      IsTyped-ok (
        get-copy_keys (λ v. v) args targeted_keys "type" action targeted_keys-Avoids.0
        ∙ get-with_target (resolve_target target blocks) (start_action name))
  aimed-IsTyped blocks (raised e) = record { at = λ b p. cc }
  aimed-IsTyped blocks cancelled = record { at = λ b p. cc }

  wired-IsTyped :
      get "type" (
        copy_keys
          (λ v. v)
          args
          ("from_block" ∷ "from_port" ∷ "to_block" ∷ "to_port" ∷ [])
          (start_action name))
      ≡ some (text name)
  wired-IsTyped = copied-IsTyped (λ v. v) _ other_keys-Avoids.1

  loaded-IsTyped :
      get "type" (
        copy_keys
          (λ v. text (strip (to_str v)))
          args
          ("block_type" ∷ "category" ∷ "block_name" ∷ [])
          (start_action name))
      ≡ some (text name)
  loaded-IsTyped = copied-IsTyped (λ v. text (strip (to_str v))) _ other_keys-Avoids.2

  mapped-IsTyped : (blocks : List Fields) → IsTyped name (function_call_to_action name args blocks)
  unfolding function_call_to_action targeted_action
  mapped-IsTyped blocks =
      search
        (
          IsTyped-if, IsTyped-ok, IsTyped-none, aimed-IsTyped, wired-IsTyped, loaded-IsTyped,
          create-IsTyped,
        )
        depth 8

-- Whatever arguments the model gives, none of them can make the action another one: the type of the
-- action that a tool call is mapped to is the name of the tool.
pub action_type :
    (name : String) (args : Fields) (blocks : List Fields) (action : Fields)
    → function_call_to_action name args blocks ≡ ok (some action)
    → get "type" action ≡ some (text name)
action_type name args blocks action e = (mapped-IsTyped name args blocks).at action e
