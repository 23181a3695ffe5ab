-- ===== src/CanvasTools/Tests.antt =====
-- The mapping of tool calls at concrete data.
use grafux_orchestrator.Prelude.{◌≡◌, refl, some, List, [], ◌∷◌, strip}
use grafux_orchestrator.Python.{text, obj, Fields, end, field, ok, get}
use grafux_orchestrator.CanvasTools.{
  function_call_to_action, FunctionCall, tool_calls_to_actions, build_tool_function_responses,
}
use grafux_orchestrator.CanvasTools.Actions.{types, acting_types, tool_calls_to_actions-types}

abbrev args : Fields
args = field "target_block" (text " alu ") (field "value" (text "7") end)

abbrev action : Fields
action =
    field "type" (text "set_port_value")
      (field "target_block" (text "alu") (field "value" (text "7") end))

mapped : function_call_to_action "set_port_value" args [] ≡ ok (some action)
unfolding function_call_to_action strip get
mapped = refl

-- A turn that reads a port, sets one, and calls a tool that there is not.
abbrev calls : List FunctionCall
calls =
    record { id = "1"; name = "read_port_value"; args = end }
    ∷ record { id = "2"; name = "set_port_value"; args = args }
    ∷ record { id = ""; name = "fly"; args = end }
    ∷ []

mapped_calls : tool_calls_to_actions calls [] ≡ ok (action ∷ [])
unfolding tool_calls_to_actions
mapped_calls = refl

tool_calls_to_actions-types_example : types (action ∷ []) ≡ acting_types calls
tool_calls_to_actions-types_example =
    tool_calls_to_actions-types calls [] (action ∷ []) mapped_calls

build_tool_function_responses-last :
    build_tool_function_responses (record { id = ""; name = "fly"; args = end } ∷ [])
    ≡ field "name"
        (text "fly")
        (field "response" (obj "{'result': 'queued'}" (field "result" (text "queued") end)) end)
      ∷ []
unfolding build_tool_function_responses
build_tool_function_responses-last = refl
