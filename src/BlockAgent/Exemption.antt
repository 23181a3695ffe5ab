-- ===== src/BlockAgent/Exemption.antt =====
-- The budget of cloud runs of a block agent, and a call that passes it by.
use grafux_orchestrator.Prelude.{
  ◌≡◌, refl, true, false, none, some, [], ◌∷◌, ◌==◌, eq_refl, one_of, leb, strip,
}
use grafux_orchestrator.Python.{
  null, text, Fields, end, field, ok, get, get_or, get_truthy, word, to_str, truthy, put,
  value_strip,
}
use grafux_orchestrator.CanvasTools.{
  function_call_to_action, targeted_action, aimed_action, resolve_target, default_target_block,
  with_target, copy_keys, copied,
}
use grafux_orchestrator.BlockAgent.Policy.{expensive_block_types}
use grafux_orchestrator.BlockAgent.Data.{ToolCall, Agent}
use grafux_orchestrator.BlockAgent.Rules.{deny, deny_run, is_expensive}
use grafux_orchestrator.BlockAgent.Dispatch.{attributed}

-- `run_block` with `"target_block": null`
abbrev pub aimless : ToolCall
aimless = record { id = "c"; name = "run_block"; arguments = field "target_block" null end }

-- The action that it is mapped to.
abbrev pub own_run : Agent → Fields
own_run a = field "type" (text "run_block") (field "target_block" (text a.block_name) end)

-- An agent on a block of the kind that runs on paid machines, that has a run left.
pub record IsPaid (a : Agent) : Type 0 where
  pub may_run : a.policy.may_run ≡ true
  pub run_left : leb a.policy.max_block_runs a.runs_used ≡ false
  pub expensive : one_of a.block_type expensive_block_types ≡ true
  pub named : (a.block_name == "") ≡ false
  pub not_none : ("None" == a.block_name) ≡ false
  pub trimmed : strip a.block_name ≡ a.block_name

aimless-cheap : (a : Agent) → IsPaid a → is_expensive a aimless none ≡ false
unfolding is_expensive word get_or get to_str strip
aimless-cheap a h = rw h.not_none refl

aimless-mapped :
    (a : Agent)
    → IsPaid a
    → function_call_to_action aimless.name aimless.arguments
        (field "name" (text a.block_name) end ∷ [])
      ≡ ok (some (own_run a))
unfolding function_call_to_action targeted_action aimed_action resolve_target default_target_block
    with_target copy_keys copied get get_or get_truthy truthy to_str put value_strip strip
aimless-mapped a h = rw (h.named, h.named) refl

own_run-expensive :
    (a : Agent) → IsPaid a → is_expensive a aimless (some (attributed a (own_run a))) ≡ true
unfolding is_expensive word get_or get to_str put
own_run-expensive a h = rw (h.trimmed, h.named, eq_refl a.block_name) h.expensive

-- A model that calls `run_block` with `"target_block": null` starts a run on a paid machine that
-- the budget of cloud runs does not stop: for an agent that may run blocks and has a run left, on a
-- block of a paid kind whose name is not empty, not `None` and without white space at its ends,
-- whatever its `may_run_expensive` and however many cloud runs it has used, the call is not denied,
-- and the action that it becomes is a run of the agent's own block, which counts as expensive.
pub aimless-Exempt :
    (a : Agent)
    → IsPaid a
    → (deny a aimless ≡ "")
      × (function_call_to_action aimless.name aimless.arguments
            (field "name" (text a.block_name) end ∷ [])
          ≡ ok (some (own_run a)))
      × (is_expensive a aimless (some (attributed a (own_run a))) ≡ true)
unfolding deny deny_run
aimless-Exempt a h =
    (rw (aimless-cheap a h, h.run_left, h.may_run) refl, aimless-mapped a h, own_run-expensive a h)
