-- ===== src/BlockAgent/Consent.antt =====
-- What a client can obtain by the `autonomy` object that `AgentPolicy.from_client` of
-- app/modules/session/block_agent.py reads.
use grafux_orchestrator.Prelude.{String, ◌≡◌, refl, Bool, true, false, Option, none, some}
use grafux_orchestrator.Python.{Value, null, flag, num, neg, real, text, arr, obj, get}
use grafux_orchestrator.BlockAgent.Policy.{AgentPolicy, default_policy, from_client}

-- The client's object has the value `true` under the key.
abbrev pub Allows : String → Value → Type 0
Allows key (obj shown fs) = get key fs ≡ some (flag true)
Allows key v = ⊥

-- The budgets of a policy are those of the default.
pub record IsBudgeted (p : AgentPolicy) : Type 0 where
  pub max_steps : p.max_steps ≡ default_policy.max_steps
  pub max_wall_clock_ms : p.max_wall_clock_ms ≡ default_policy.max_wall_clock_ms
  pub max_block_runs : p.max_block_runs ≡ default_policy.max_block_runs
  pub max_expensive_runs : p.max_expensive_runs ≡ default_policy.max_expensive_runs

asked_for :
    (o : Option Value)
    → elim o as (λ _. Bool) [ some (flag b) ↦ b | _ ↦ false ] ≡ true
    → o ≡ some (flag true)
asked_for none h = absurd cc
asked_for (some (flag true)) h = refl
asked_for (some (flag false)) h = absurd cc
asked_for (some null) h = absurd cc
asked_for (some (num n)) h = absurd cc
asked_for (some (neg n)) h = absurd cc
asked_for (some (real s b)) h = absurd cc
asked_for (some (text s)) h = absurd cc
asked_for (some (arr s vs)) h = absurd cc
asked_for (some (obj s fs)) h = absurd cc

default-IsBudgeted : IsBudgeted default_policy
default-IsBudgeted = record {
  max_steps = refl;
  max_wall_clock_ms = refl;
  max_block_runs = refl;
  max_expensive_runs = refl;
}

default_keeps : {A : Type 0} → default_policy.may_delete ≡ true → A
default_keeps h = absurd cc

-- Whatever a client sends, and however malformed it is, the budgets are the default ones, and the
-- agent may delete blocks only if the client has said so with the JSON value `true`.
pub from_client-IsBudgeted :
    (raw : Value)
    → IsBudgeted (from_client raw) × ((from_client raw).may_delete ≡ true → Allows "delete" raw)
unfolding from_client
from_client-IsBudgeted (obj shown fs) = (
  record {
    max_steps = refl;
    max_wall_clock_ms = refl;
    max_block_runs = refl;
    max_expensive_runs = refl;
  },
  λ h. asked_for (get "delete" fs) h,
)
from_client-IsBudgeted null = (default-IsBudgeted, default_keeps)
from_client-IsBudgeted (flag b) = (default-IsBudgeted, default_keeps)
from_client-IsBudgeted (num n) = (default-IsBudgeted, default_keeps)
from_client-IsBudgeted (neg n) = (default-IsBudgeted, default_keeps)
from_client-IsBudgeted (real s b) = (default-IsBudgeted, default_keeps)
from_client-IsBudgeted (text s) = (default-IsBudgeted, default_keeps)
from_client-IsBudgeted (arr s vs) = (default-IsBudgeted, default_keeps)
