-- ===== src/BlockAgent/Permission.antt =====
-- What `_deny` promises of a call that it lets pass, and what the charge of the call leaves alone.
use grafux_orchestrator.Prelude.{
  sym, ◌∙◌, Bool-cases, inl, inr, append_not_blank, String, ◌≡◌, refl, Bool, true, false, not, ◌&&◌,
  Option, none, some, [], ◌∷◌, ◌==◌, arith, eq_iff, one_of, leb, if◌then◌else◌,
}
use mathlib.Core.Bool.{false≢true}
use grafux_orchestrator.Python.{Value, text, Fields, end, field, get, ok}
use grafux_orchestrator.CanvasTools.{function_call_to_action}
use grafux_orchestrator.Python.Laws.{get-put_ne}
use grafux_orchestrator.CanvasTools.Laws.{action_type}
use grafux_orchestrator.BlockAgent.Data.{ToolCall, Agent}
use grafux_orchestrator.BlockAgent.Rules.{charge, deny, deny_run, run_tools, is_expensive}
use grafux_orchestrator.BlockAgent.Dispatch.{attributed}

-- The text that an action has under `type`.
abbrev pub kind_of : Option Value → String
kind_of (some (text name)) = name
kind_of _ = ""

-- What a call that is not denied may count on.
pub record Permitted (a : Agent) (call : ToolCall) : Type 0 where
  pub run_left :
      one_of call.name run_tools ≡ true
      → (a.policy.may_run ≡ true) × (leb a.policy.max_block_runs a.runs_used ≡ false)
  pub expensive_left :
      one_of call.name run_tools ≡ true
      → is_expensive a call none ≡ true
      → (a.policy.may_run_expensive ≡ true)
        × (leb a.policy.max_expensive_runs a.expensive_runs_used ≡ false)
  pub no_deletion : (call.name == "delete_block") ≡ true → a.policy.may_delete ≡ true

-- A ladder of refusals is blank only if no test passes.
blank_ladder :
    (b : Bool) (x y : String)
    → (x == "") ≡ false
    → ((if b then x else y) == "") ≡ true
    → (b ≡ false) × ((y == "") ≡ true)
blank_ladder true x y hx h = absurd (false≢true (sym hx ∙ h))
blank_ladder false x y hx h = (refl, h)

deny_run-eq-blank :
    (a : Agent) (call : ToolCall)
    → (deny_run a call == "") ≡ true
    → (a.policy.may_run ≡ true)
      × (leb a.policy.max_block_runs a.runs_used ≡ false)
      × (is_expensive a call none ≡ true
          → (a.policy.may_run_expensive ≡ true)
            × (leb a.policy.max_expensive_runs a.expensive_runs_used ≡ false))
unfolding deny_run
deny_run-eq-blank a call h =
    let (run, h1) = blank_ladder (not a.policy.may_run) _ _ refl h in
    let (left, h2) =
      blank_ladder (leb a.policy.max_block_runs a.runs_used) _ _ (append_not_blank _ _ refl) h1 in
    let (may, h3) =
      blank_ladder (is_expensive a call none && not a.policy.may_run_expensive) _ _ refl h2 in
    let (cheap, h4) =
      blank_ladder
        (is_expensive a call none && leb a.policy.max_expensive_runs a.expensive_runs_used) _ _
        (append_not_blank _ _ refl) h3 in
    (ground arith, left, λ e. (ground arith, ground arith))

blank-if_not :
    (s t : String)
    → ((if not (s == "") then s else t) == "") ≡ true
    → ((s == "") ≡ true) × ((t == "") ≡ true)
blank-if_not s t h = elim (Bool-cases (s == "")) [
  | inl e ↦ (e, rw e at h)
  | inr e ↦ absurd (false≢true (sym e ∙ (rw e at h)))
]

blank-if :
    (b : Bool) (s : String) → ((if b then s else "") == "") ≡ true → b ≡ true → (s == "") ≡ true
blank-if true s h e = h
blank-if false s h e = cc

pub deny-Permitted : (a : Agent) (call : ToolCall) → deny a call ≡ "" → Permitted a call
unfolding deny
deny-Permitted a call h =
    let runs = one_of call.name run_tools in
    let (ran, rest) =
      blank-if_not (if runs then deny_run a call else "") _ ((eq_iff (deny a call) "").1 h) in
    let free = λ (e : runs ≡ true). deny_run-eq-blank a call (blank-if runs _ ran e) in
    let (kept, _) =
      blank_ladder (call.name == "delete_block" && not a.policy.may_delete) _ "" refl rest in
    record {
      run_left = λ e. ((free e).0, (free e).1);
      expensive_left = λ e. (free e).2;
      no_deletion = λ e. ground arith;
    }

-- The type of the action that is handed over.
pub attributed_type :
    (a : Agent) (call : ToolCall) (action : Fields)
    → function_call_to_action call.name call.arguments (field "name" (text a.block_name) end ∷ [])
      ≡ ok (some action)
    → get "type" (attributed a action) ≡ some (text call.name)
unfolding get
attributed_type a call action mapped =
    get-put_ne "agent_block_id" "type" (text a.block_id) action refl
    ∙ action_type call.name call.arguments (field "name" (text a.block_name) end ∷ []) action mapped

pub charge_same :
    (a : Agent) (call : ToolCall) (expensive : Bool)
    → ((charge call expensive a).policy ≡ a.policy)
      × ((charge call expensive a).steps_used ≡ a.steps_used)
      × ((charge call expensive a).detached ≡ a.detached)
      × ((charge call expensive a).seq ≡ a.seq)
unfolding charge
charge_same a call expensive = elim (Bool-cases (one_of call.name run_tools)) [
  | inl runs ↦ rw runs (refl, refl, refl, refl)
  | inr other ↦ rw other (refl, refl, refl, refl)
]
