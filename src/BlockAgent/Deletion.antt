-- ===== src/BlockAgent/Deletion.antt =====
-- A block agent that may not delete blocks never asks the canvas to delete one.
use grafux_orchestrator.Prelude.{
  String, ◌≡◌, refl, ◌∙◌, Bool, false, some, ◌==◌, arith, All, Bool-cases, inl, inr,
}
use grafux_orchestrator.Python.{text, Fields, get}
use grafux_orchestrator.BlockAgent.Policy.{AgentPolicy}
use grafux_orchestrator.BlockAgent.Data.{ToolCall, World, Event, acted, Session}
use grafux_orchestrator.BlockAgent.Rules.{charge, is_expensive}
use grafux_orchestrator.BlockAgent.Dispatch.{attributed}
use grafux_orchestrator.BlockAgent.Loop.{run}
use grafux_orchestrator.BlockAgent.Permission.{
  kind_of, Permitted, deny-Permitted, attributed_type, charge_same,
}
use grafux_orchestrator.BlockAgent.Induction.{
  Withstands, IsQuery, settle-Unmoved, use_step, draw, charged,
}
use grafux_orchestrator.BlockAgent.Induction.Rounds.{run-Keeps}

abbrev pub deletes : Event → Bool
deletes (acted action expensive) = kind_of (get "type" action) == "delete_block"
deletes _ = false

-- Under the policy `p`, nothing was deleted.
pub record IsSparing {W : Type 0} (p : AgentPolicy) (s : Session W) : Type 0 where
  pub policy : s.agent.policy ≡ p
  pub kept : All (λ e. deletes e ≡ false) s.trace

query-deletes : (event : Event) → IsQuery event → deletes event ≡ false
query-deletes (acted action expensive) q = elim q [ ]
query-deletes _ q = refl

module _ {W : Type 0} (world : World W) (p : AgentPolicy) (barred : p.may_delete ≡ false) where
  IsSparing-carry :
      (call : ToolCall) (action : Fields) (w : W) (s : Session W)
      → Permitted s.agent call
      → get "type" action ≡ some (text call.name)
      → IsSparing p s
      → IsSparing p (charged world call action w s)
  IsSparing-carry call action w s allowed typed h =
      let a = charge call (is_expensive s.agent call (some action)) s.agent in
      let u = settle-Unmoved (world.interrupt w) a in
      record {
        policy =
            u.policy
            ∙ (charge_same s.agent call (is_expensive s.agent call (some action))).0
            ∙ h.policy;
        kept = (refl, (rw typed not_deletion, h.kept));
      }
    where
      not_deletion : (call.name == "delete_block") ≡ false
      not_deletion = elim (Bool-cases (call.name == "delete_block")) [
        | inl deletion ↦ ground (arith, allowed.no_deletion deletion)
        | inr other ↦ other
      ]

  IsSparing-Withstands : Withstands world (IsSparing p)
  IsSparing-Withstands = record {
    write = λ f s same h. record { policy = same.policy ∙ h.policy; kept = h.kept };
    spend = λ s live left h. record { policy = h.policy; kept = h.kept };
    consult = λ messages declarations w s live left h.
        let u = settle-Unmoved (world.interrupt w) (use_step s.agent) in
        record { policy = u.policy ∙ h.policy; kept = (refl, (refl, h.kept)) };
    wait = λ event w s q h.
        let u = settle-Unmoved (world.interrupt w) s.agent in
        record { policy = u.policy ∙ h.policy; kept = (refl, (query-deletes event q, h.kept)) };
    tell_step = λ kind line tool w s live h.
        let u = settle-Unmoved (world.interrupt w) (draw s.agent) in
        record { policy = u.policy ∙ h.policy; kept = (refl, (refl, h.kept)) };
    tell_state = λ w s live h.
        let u = settle-Unmoved (world.interrupt w) s.agent in
        record { policy = u.policy ∙ h.policy; kept = (refl, (refl, h.kept)) };
    carry = λ call action w s allowed mapped h.
        IsSparing-carry call (attributed s.agent action) w s (deny-Permitted s.agent call allowed)
          (attributed_type s.agent call action mapped) h;
  }

-- Under a policy without `may_delete`, no request that a run makes of the canvas has the type
-- `delete_block`, whatever tools the model calls and whatever the canvas and the user answer.
pub run-IsSparing :
    {W : Type 0} (world : World W) (instruction : String) (p : AgentPolicy) (s : Session W)
    → p.may_delete ≡ false
    → IsSparing p s
    → IsSparing p (run world instruction s).1
run-IsSparing world instruction p s barred h =
    (run-Keeps world (IsSparing-Withstands world p barred) instruction).at s h
