-- ===== src/CanvasTools/Actions.antt =====
-- The actions that a turn's tool calls are mapped to, as a list.
use grafux_orchestrator.Prelude.{
  String, ◌≡◌, ◌≢◌, refl, sym, ap, ◌∙◌, Bool, true, false, not, ◌&&◌, ◌||◌, Option, none, some,
  List, [], ◌∷◌, map, ◌==◌, arith, keep, one_of, eq_iff, Bool-cases, inl, inr, if◌then◌else◌,
}
use mathlib.Core.Path.{subst}
use grafux_orchestrator.Python.{
  Value, text, Fields, end, field, get, Outcome, ok, raised, cancelled, value_strip, get_truthy,
}
use grafux_orchestrator.CanvasTools.{
  canvas_function_declarations, FunctionCall, append_action, tool_calls_to_actions,
  function_call_to_action, targeted_action, aimed_action, targeted_tools,
}
use grafux_orchestrator.CanvasTools.Laws.{action_type}

-- The tools that act on the canvas: all that are declared for it but the one that reads.
unfoldable pub acts : FunctionCall → Bool
acts call = one_of call.name canvas_function_declarations && not (call.name == "read_port_value")

abbrev pub type_of_call : FunctionCall → Option Value
type_of_call call = some (text call.name)

aimed_action-some :
    (name : String) (args : Fields) (blocks : List Fields) (target : Outcome String)
    → aimed_action name args blocks target ≢ ok none
unfolding aimed_action
aimed_action-some name args blocks (ok t) e = cc
aimed_action-some name args blocks (raised x) e = cc
aimed_action-some name args blocks cancelled e = cc

-- Where all branches but the last make an action, nothing is made only in the last.
last_branch :
    (a b c d : Bool) (x : Outcome (Option Fields)) (y z w : Fields)
    → x ≢ ok none
    → (if a
        then x
        else if b
        then ok (some y)
        else if c
        then ok (some z)
        else if d
        then ok (some w)
        else ok none)
      ≡ ok none
    → (a ≡ false) × (b ≡ false) × (c ≡ false) × (d ≡ false)
last_branch true b c d x y z w h e = absurd (h e)
last_branch false true c d x y z w h e = absurd cc
last_branch false false true d x y z w h e = absurd cc
last_branch false false false true x y z w h e = absurd cc
last_branch false false false false x y z w h e = (refl, refl, refl, refl)

unmapped-acts :
    (call : FunctionCall) (blocks : List Fields)
    → function_call_to_action call.name call.args blocks ≡ ok none
    → acts call ≡ false
unfolding function_call_to_action targeted_action acts
unmapped-acts call blocks e =
    let (a, b, c, d) =
      last_branch (one_of call.name targeted_tools)
        (one_of call.name ("connect_ports" ∷ "disconnect_ports" ∷ [])) (call.name == "load_block")
        (call.name == "create_block") _ _ _ _
        (aimed_action-some call.name call.args blocks
          (value_strip (get_truthy "target_block" call.args)))
        e in
    ground (arith, a, b, c, d)

-- Where the last branch makes no action, an action is made only in one before it.
earlier_branch :
    (a b c d : Bool) (x : Outcome (Option Fields)) (y z w action : Fields)
    → (if a
        then x
        else if b
        then ok (some y)
        else if c
        then ok (some z)
        else if d
        then ok (some w)
        else ok none)
      ≡ ok (some action)
    → (a || (b || (c || d))) ≡ true
earlier_branch true b c d x y z w action e = refl
earlier_branch false true c d x y z w action e = refl
earlier_branch false false true d x y z w action e = refl
earlier_branch false false false true x y z w action e = refl
earlier_branch false false false false x y z w action e = absurd cc

unread :
    (args : Fields) (blocks : List Fields)
    → function_call_to_action "read_port_value" args blocks ≡ ok none
unfolding function_call_to_action
unread args blocks = refl

acting :
    (name : String)
    → (name == "read_port_value") ≡ false
    → (one_of name targeted_tools
        || (one_of name ("connect_ports" ∷ "disconnect_ports" ∷ [])
            || (name == "load_block" || name == "create_block")))
      ≡ true
    → one_of name canvas_function_declarations ≡ true
acting name h e = ground (arith, h, e)

both : (a b : Bool) → a ≡ true → b ≡ false → (a && not b) ≡ true
both a b h k = ground (arith, h, k)

mapped-acts :
    (call : FunctionCall) (blocks : List Fields) (action : Fields)
    → function_call_to_action call.name call.args blocks ≡ ok (some action)
    → acts call ≡ true
unfolding function_call_to_action acts
mapped-acts call blocks action e = elim (Bool-cases (call.name == "read_port_value")) [
  | inl h ↦
      let none_made =
        subst (λ name. function_call_to_action name call.args blocks ≡ ok none)
          (sym ((eq_iff call.name "read_port_value").0 h)) (unread call.args blocks) in
      absurd cc
  | inr h ↦
      let made = acting call.name h (
        earlier_branch (one_of call.name targeted_tools)
          (one_of call.name ("connect_ports" ∷ "disconnect_ports" ∷ [])) (call.name == "load_block")
          (call.name == "create_block") _ _ _ _ action e) in
      both _ _ made h
]

unnamed-acts : (call : FunctionCall) → (call.name == "") ≡ true → acts call ≡ false
unfolding acts
unnamed-acts call h =
    subst
      (λ name.
        (one_of name canvas_function_declarations && not (name == "read_port_value")) ≡ false)
      (sym ((eq_iff call.name "").0 h)) refl

-- The types of the actions of a list.
abbrev pub types : List Fields → List (Option Value)
types actions = map (λ action. get "type" action) actions

abbrev pub acting_types : List FunctionCall → List (Option Value)
acting_types calls = map type_of_call (keep acts calls)

kept_call :
    (test : Bool) (call : FunctionCall) (calls : List FunctionCall)
    → map type_of_call (elim test [ true ↦ call ∷ calls | false ↦ calls ])
      ≡ (if test then type_of_call call ∷ map type_of_call calls else map type_of_call calls)
kept_call true call calls = refl
kept_call false call calls = refl

keep-acts :
    (call : FunctionCall) (calls : List FunctionCall)
    → acting_types (call ∷ calls)
      ≡ (if acts call then type_of_call call ∷ acting_types calls else acting_types calls)
unfolding keep
keep-acts call calls = kept_call (acts call) call (keep acts calls)

blank_action :
    (call : FunctionCall) (blocks : List Fields)
    → function_call_to_action call.name call.args blocks ≢ ok (some end)
unfolding get
blank_action call blocks e =
    let typed : none ≡ some (text call.name) = action_type call.name call.args blocks end e in cc

append_action-types :
    (call : FunctionCall) (blocks : List Fields) (made : Outcome (Option Fields))
    (later : Outcome (List Fields)) (expected : List (Option Value)) (actions : List Fields)
    → function_call_to_action call.name call.args blocks ≡ made
    → ((rest : List Fields) → later ≡ ok rest → types rest ≡ expected)
    → append_action made later ≡ ok actions
    → types actions ≡ (if acts call then type_of_call call ∷ expected else expected)
unfolding append_action
append_action-types call blocks (ok none) later expected actions h k e =
    rw (unmapped-acts call blocks h) (k actions e)
append_action-types call blocks (ok (some end)) later expected actions h k e =
    absurd (blank_action call blocks h)
append_action-types call blocks (ok (some (field key v fs))) (ok rest) expected actions h k e =
    let same : field key v fs ∷ rest ≡ actions = cc in
    let first = action_type call.name call.args blocks (field key v fs) h in
    rw (mapped-acts call blocks (field key v fs) h) (
      subst (λ done. types done ≡ type_of_call call ∷ expected) same
        (ap (λ o. o ∷ types rest) first ∙ ap (λ os. type_of_call call ∷ os) (k rest refl)))
append_action-types call blocks (ok (some (field key v fs))) (raised x) expected actions h k e =
    absurd cc
append_action-types call blocks (ok (some (field key v fs))) cancelled expected actions h k e =
    absurd cc
append_action-types call blocks (raised x) later expected actions h k e = absurd cc
append_action-types call blocks cancelled later expected actions h k e = absurd cc

add_call :
    (call : FunctionCall) (blocks : List Fields) (later : Outcome (List Fields))
    (expected : List (Option Value)) (actions : List Fields) (test : Bool)
    → (call.name == "") ≡ test
    → ((rest : List Fields) → later ≡ ok rest → types rest ≡ expected)
    → (if test
        then later
        else append_action (function_call_to_action call.name call.args blocks) later)
      ≡ ok actions
    → types actions ≡ (if acts call then type_of_call call ∷ expected else expected)
add_call call blocks later expected actions true h k e = rw (unnamed-acts call h) (k actions e)
add_call call blocks later expected actions false h k e =
    append_action-types call blocks _ later expected actions refl k e

-- The actions of a turn are, in order, one for each call of a canvas tool other than the one that
-- reads, with the name of the tool as its type; no other call has one.
pub tool_calls_to_actions-types :
    (calls : List FunctionCall) (blocks : List Fields) (actions : List Fields)
    → tool_calls_to_actions calls blocks ≡ ok actions
    → types actions ≡ acting_types calls
unfolding tool_calls_to_actions keep
tool_calls_to_actions-types [] blocks [] e = refl
tool_calls_to_actions-types [] blocks (a ∷ actions) e = absurd cc
tool_calls_to_actions-types (call ∷ calls) blocks actions e =
    add_call call blocks (tool_calls_to_actions calls blocks) (acting_types calls) actions
      (call.name == "") refl (λ rest f. tool_calls_to_actions-types calls blocks rest f) e
    ∙ sym (keep-acts call calls)
