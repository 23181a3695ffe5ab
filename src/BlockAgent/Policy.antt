-- ===== src/BlockAgent/Policy.antt =====
-- `AgentPolicy` of app/modules/session/block_agent.py, and `EXPENSIVE_BLOCK_TYPES` of
-- app/core/constants.py. The wall clock is counted in milliseconds.
use grafux_orchestrator.Prelude.{
  ℕ, ◌<>◌, String, Bool, true, false, not, ◌&&◌, some, List, [], ◌∷◌, ◌++◌, show, join,
}
use grafux_orchestrator.Python.{Value, flag, obj, Fields, get}

pub record AgentPolicy : Type 0 where
  pub may_mutate_ports : Bool
  pub may_wire : Bool
  pub may_create : Bool
  pub may_delete : Bool
  pub may_run : Bool
  pub may_run_expensive : Bool
  pub max_steps : ℕ
  pub max_wall_clock_ms : ℕ
  pub max_block_runs : ℕ
  pub max_expensive_runs : ℕ

abbrev pub default_policy : AgentPolicy
default_policy = record {
  may_mutate_ports = true;
  may_wire = true;
  may_create = true;
  may_delete = false;
  may_run = true;
  may_run_expensive = true;
  max_steps = 24;
  max_wall_clock_ms = 1800000;
  max_block_runs = 6;
  max_expensive_runs = 2;
}

-- The local `flag` of `from_client`.
policy_flag : Fields → String → Bool → Bool
unfolding get
policy_flag raw key current = elim (get key raw) [ some (flag b) ↦ b | _ ↦ current ]

unfoldable pub from_client : Value → AgentPolicy
unfolding policy_flag
from_client (obj shown raw) = record default_policy {
  may_mutate_ports = policy_flag raw "mutate_ports" default_policy.may_mutate_ports;
  may_wire = policy_flag raw "wire" default_policy.may_wire;
  may_create = policy_flag raw "create" default_policy.may_create;
  may_delete = policy_flag raw "delete" default_policy.may_delete;
  may_run = policy_flag raw "run" default_policy.may_run;
  may_run_expensive = policy_flag raw "run_expensive" default_policy.may_run_expensive;
}
from_client other = default_policy

-- `xs` if the test holds, else nothing.
abbrev pub when_list {ℓ} : {A : Type ℓ} → Bool → List A → List A
when_list true xs = xs
when_list false xs = []

allowance : List String → String
unfolding join
allowance [] = "You may not change the canvas."
allowance (a ∷ rest) = "You may do the following WITHOUT asking: " <> (join "; " (a ∷ rest) <> ".")

unfoldable pub describes : AgentPolicy → String
unfolding show join allowance
describes p =
    let allowed =
      when_list p.may_mutate_ports
        ("read and write port values, and add, rename or remove ports" ∷ [])
      ++ (when_list p.may_wire ("connect and disconnect wires between blocks" ∷ [])
          ++ (when_list p.may_create ("create new blocks and load saved ones" ∷ [])
              ++ when_list p.may_run ("run and regenerate blocks" ∷ []))) in
    join "\n" (
      (allowance allowed ∷ [])
      ++ (when_list (not p.may_delete) (
            "You may NOT delete blocks. Deleting a block permanently removes its folder and all of its port files from disk. If deleting one is genuinely the right move, call ask_user and let them decide."
            ∷ [])
          ++ (when_list (p.may_run && not p.may_run_expensive) (
                "Running a verilator, yosys, openroad or gpu block provisions a paid cloud machine, so ask_user before running one."
                ∷ [])
              ++ (("You have at most "
                    <> (show p.max_steps
                        <> " steps. Spend them on the objective, and call finish as soon as it is met."))
                  ∷ []))))

-- `_tool_names`
unfoldable pub tool_names : AgentPolicy → List String
tool_names p =
    ("read_port_value" ∷ "finish" ∷ "ask_user" ∷ [])
    ++ (when_list p.may_mutate_ports (
          "set_port_value" ∷ "add_port" ∷ "remove_port" ∷ "rename_port" ∷ "open_port"
          ∷ "set_description" ∷ [])
        ++ (when_list p.may_wire ("connect_ports" ∷ "disconnect_ports" ∷ [])
            ++ (when_list p.may_create ("create_block" ∷ "load_block" ∷ [])
                ++ (when_list p.may_delete ("delete_block" ∷ [])
                    ++ when_list p.may_run ("run_block" ∷ "regenerate_block" ∷ [])))))

abbrev pub expensive_block_types : List String
expensive_block_types =
    "verilator" ∷ "yosys" ∷ "openroad" ∷ "openram" ∷ "opengcram" ∷ "analogue_simulator" ∷ "gpu"
    ∷ "cpu" ∷ []
