-- ===== src/CanvasTools.antt =====
-- app/modules/session/canvas_tools.py: the names of the declared tools, and the mapping from a
-- tool call to a canvas action. A declaration's JSON schema is constant and is known by its name.
pub mod Laws
pub mod Actions
mod Tests
use grafux_orchestrator.Prelude.{
  String, ◌==◌, Option, none, some, List, [], ◌∷◌, ◌++◌, map, strip, keep, one_of, if◌then◌else◌,
}
use grafux_orchestrator.Python.{
  Value, null, text, obj, Fields, end, field, truthy, to_str, get, get_or, put, get_truthy, Outcome,
  ok, raised, cancelled, value_strip,
}

abbrev pub canvas_function_declarations : List String
canvas_function_declarations =
    "set_port_value" ∷ "read_port_value" ∷ "run_block" ∷ "regenerate_block" ∷ "add_port"
    ∷ "remove_port" ∷ "rename_port" ∷ "open_port" ∷ "set_description" ∷ "connect_ports"
    ∷ "disconnect_ports" ∷ "delete_block" ∷ "load_block" ∷ "create_block" ∷ []

abbrev pub agent_coordination_declarations : List String
agent_coordination_declarations = "post_note" ∷ "request_agent" ∷ "ask_user" ∷ "finish" ∷ []

-- `_by_name`
unfoldable pub by_name : Option (List String) → List String
unfolding keep
by_name none = canvas_function_declarations ++ agent_coordination_declarations
by_name (some names) =
    keep (λ d. one_of d names) (canvas_function_declarations ++ agent_coordination_declarations)

abbrev pub to_declarations : Option (List String) → List String
to_declarations names = by_name names

-- `_default_target_block`
unfoldable pub default_target_block : List Fields → String
unfolding get_or truthy to_str
default_target_block (block ∷ []) =
    let name = get_or "name" (text "") block in if truthy name then to_str name else ""
default_target_block blocks = ""

-- `if key in args and args[key] is not None: action[key] = change(args[key])`, by what
-- `args.get(key)` gives.
unfoldable pub copied : (Value → Value) → String → Option Value → Fields → Fields
unfolding put
copied change key none action = action
copied change key (some null) action = action
copied change key (some v) action = put key (change v) action

-- The loop over the keys.
unfoldable pub copy_keys : (Value → Value) → Fields → List String → Fields → Fields
unfolding copied get
copy_keys change args [] action = action
copy_keys change args (key ∷ keys) action =
    copy_keys change args keys (copied change key (get key args) action)

-- `if key in args: action[key] = args[key]`, also for `None`.
unfoldable pub present : String → Option Value → Fields → Fields
unfolding put
present key none action = action
present key (some v) action = put key v action

abbrev pub targeted_tools : List String
targeted_tools =
    "set_port_value" ∷ "run_block" ∷ "regenerate_block" ∷ "add_port" ∷ "remove_port" ∷ "rename_port"
    ∷ "open_port" ∷ "set_description" ∷ "delete_block" ∷ []

abbrev pub targeted_keys : List String
targeted_keys =
    "direction" ∷ "port_name" ∷ "value" ∷ "description" ∷ "old_port_name" ∷ "new_port_name" ∷ []

abbrev pub create_keys : List String
create_keys =
    "block_type" ∷ "block_name" ∷ "description" ∷ "category" ∷ "language" ∷ "address" ∷ "url"
    ∷ "gpu_model" ∷ "instance_type" ∷ "top" ∷ "pdk" ∷ "clock_period" ∷ "data" ∷ "spec"
    ∷ "explanation" ∷ "fix" ∷ "source_code" ∷ "memory_mode" ∷ "filter_type" ∷ []

-- The target that the action names: the call's, or the only active block.
unfoldable pub resolve_target : String → List Fields → String
unfolding default_target_block
resolve_target target blocks = if target == "" then default_target_block blocks else target

unfoldable pub with_target : String → Fields → Fields
unfolding put
with_target target action = if target == "" then action else put "target_block" (text target) action

-- `{"type": name}`
abbrev pub start_action : String → Fields
start_action name = field "type" (text name) end

-- The action on a target, if the call's target could be read.
unfoldable pub aimed_action :
    String → Fields → List Fields → Outcome String → Outcome (Option Fields)
unfolding resolve_target with_target copy_keys
aimed_action name args blocks (ok target) = ok (
    some (
      copy_keys (λ v. v) args targeted_keys
        (with_target (resolve_target target blocks) (start_action name))))
aimed_action name args blocks (raised e) = raised e
aimed_action name args blocks cancelled = cancelled

unfoldable pub targeted_action : String → Fields → List Fields → Outcome (Option Fields)
unfolding value_strip get_truthy aimed_action
targeted_action name args blocks =
    aimed_action name args blocks (value_strip (get_truthy "target_block" args))

unfoldable pub create_action : String → Fields → Fields
unfolding copy_keys present get
create_action name args = present "connections" (get "connections" args) (
    present "outputs" (get "outputs" args) (
      present "inputs" (get "inputs" args)
        (copy_keys (λ v. v) args create_keys (start_action name))))

unfoldable pub function_call_to_action : String → Fields → List Fields → Outcome (Option Fields)
unfolding targeted_action create_action to_str strip
function_call_to_action name args blocks =
    if one_of name targeted_tools
    then targeted_action name args blocks
    else if one_of name ("connect_ports" ∷ "disconnect_ports" ∷ [])
    then ok (
        some (
          copy_keys (λ v. v) args ("from_block" ∷ "from_port" ∷ "to_block" ∷ "to_port" ∷ [])
            (start_action name)))
    else if name == "load_block"
    then ok (
        some (
          copy_keys (λ v. text (strip (to_str v))) args
            ("block_type" ∷ "category" ∷ "block_name" ∷ []) (start_action name)))
    else if name == "create_block"
    then ok (some (create_action name args))
    else ok none

-- A call as Gemini gives it; an id or a name that is missing is empty, arguments that are missing
-- or no dictionary are no arguments.
pub record FunctionCall : Type 0 where
  pub id : String
  pub name : String
  pub args : Fields

-- `if action: actions.append(action)`, before the actions of the later calls
unfoldable pub append_action :
    Outcome (Option Fields) → Outcome (List Fields) → Outcome (List Fields)
append_action (ok none) later = later
append_action (ok (some end)) later = later
append_action (ok (some action)) (ok actions) = ok (action ∷ actions)
append_action (ok (some action)) later = later
append_action (raised e) later = raised e
append_action cancelled later = cancelled

unfoldable pub tool_calls_to_actions : List FunctionCall → List Fields → Outcome (List Fields)
unfolding append_action function_call_to_action
tool_calls_to_actions [] blocks = ok []
tool_calls_to_actions (call ∷ calls) blocks =
    let later = tool_calls_to_actions calls blocks in
    if call.name == ""
    then later
    else append_action (function_call_to_action call.name call.args blocks) later

-- `{"name": …, "response": {"result": "queued"}}`, with the id if there is one
abbrev pub acknowledgement : FunctionCall → Fields
acknowledgement call = field "name" (text call.name) (
    field "response" (obj "{'result': 'queued'}" (field "result" (text "queued") end))
      (if call.id == "" then end else field "id" (text call.id) end))

unfoldable pub build_tool_function_responses : List FunctionCall → List Fields
build_tool_function_responses calls = map acknowledgement calls
