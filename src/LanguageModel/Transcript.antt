-- ===== src/LanguageModel/Transcript.antt =====
-- `_to_openai_messages`, `_to_anthropic_messages` and the tool declarations of app/core/llm.py.
pub mod Coalescing
use grafux_orchestrator.Prelude.{
  String, ◌==◌, Bool, Option, none, some, List, [], ◌∷◌, ◌++◌, map, if◌then◌else◌,
}
use grafux_orchestrator.Python.{Value, text, Fields, end, field, obj, truthy, or_text}
use grafux_orchestrator.BlockAgent.Data.{ToolCall, Entry, user, assistant, tool, system}

-- A declaration of a tool: `d["name"]`, `d.get("description", "")` and `d.get("parameters")`.
pub record Declaration : Type 0 where
  pub name : String
  pub description : Option String
  pub parameters : Option Value

pub record OpenaiTool : Type 0 where
  pub kind : String
  pub name : String
  pub description : String
  pub parameters : Value

pub record AnthropicTool : Type 0 where
  pub name : String
  pub description : String
  pub input_schema : Value

-- `{"type": "object", "properties": {}}`
abbrev pub no_parameters : Value
no_parameters =
    obj "{'type': 'object', 'properties': {}}"
      (field "type" (text "object") (field "properties" (obj "{}" end) end))

-- `d.get("parameters") or {"type": "object", "properties": {}}`
unfoldable pub parameters_of : Option Value → Value
unfolding truthy
parameters_of none = no_parameters
parameters_of (some v) = if truthy v then v else no_parameters

abbrev pub described : Option String → String
described none = ""
described (some s) = s

unfoldable pub to_openai_tools : List Declaration → List OpenaiTool
unfolding parameters_of
to_openai_tools ds =
    map
      (λ (d : Declaration). record {
        kind = "function";
        name = d.name;
        description = described d.description;
        parameters = parameters_of d.parameters;
      })
      ds

unfoldable pub to_anthropic_tools : List Declaration → List AnthropicTool
unfolding parameters_of
to_anthropic_tools ds =
    map
      (λ (d : Declaration). record {
        name = d.name;
        description = described d.description;
        input_schema = parameters_of d.parameters;
      })
      ds

-- A tool call as OpenAI writes it: its arguments are JSON text.
pub record WireCall : Type 0 where
  pub id : String
  pub name : String
  pub arguments : String

-- A message for OpenAI.
pub data OpenaiMessage : Type 0 where
  plain : (role content : String) → OpenaiMessage
  answer : (tool_call_id content : String) → OpenaiMessage
  request : (content : Option String) → (tool_calls : List WireCall) → OpenaiMessage

-- `s or None`
abbrev pub or_none : String → Option String
or_none s = if s == "" then none else some s

module _ (dumps : Fields → String) where
  abbrev pub wire_call : ToolCall → WireCall
  wire_call call = record { id = call.id; name = call.name; arguments = dumps call.arguments }

  abbrev pub openai_message : Entry → OpenaiMessage
  openai_message (user content) = plain "user" content
  openai_message (system content) = plain "system" content
  openai_message (tool id name content is_error) = answer id content
  openai_message (assistant content [] raw) = plain "assistant" content
  openai_message (assistant content (call ∷ calls) raw) =
      request (or_none content) (map wire_call (call ∷ calls))

  -- `_to_openai_messages`
  unfoldable pub to_openai_messages : List Entry → List OpenaiMessage
  to_openai_messages [] = []
  to_openai_messages (e ∷ es) = openai_message e ∷ to_openai_messages es

pub record ToolResult : Type 0 where
  pub tool_use_id : String
  pub content : String
  pub is_error : Bool

pub data Block : Type 0 where
  prose : (text : String) → Block
  tool_use : (id name : String) → (input : Fields) → Block

-- A message for Anthropic: by its role and the kind of its content.
pub data AnthropicMessage : Type 0 where
  plain : (role content : String) → AnthropicMessage
  results : List ToolResult → AnthropicMessage
  replay : (raw_content : Value) → AnthropicMessage
  rebuilt : List Block → AnthropicMessage

abbrev pub tool_result : (id content : String) → Bool → ToolResult
tool_result id content is_error = record {
  tool_use_id = id;
  content = or_text content "(no output)";
  is_error = is_error;
}

abbrev pub use_block : ToolCall → Block
use_block call = tool_use call.id call.name call.arguments

-- The blocks of a turn that is not replayed as it came.
unfoldable pub rebuilt_blocks : String → List ToolCall → List Block
rebuilt_blocks content calls =
    (if content == "" then [] else prose content ∷ []) ++ map use_block calls

unfoldable pub assistant_message : String → List ToolCall → Value → AnthropicMessage
unfolding truthy rebuilt_blocks
assistant_message content [] raw =
    if truthy raw then replay raw else AnthropicMessage.plain "assistant" content
assistant_message content (call ∷ calls) raw =
    if truthy raw then replay raw else rebuilt (rebuilt_blocks content (call ∷ calls))

-- `_flush`: the pending results in front of what follows.
unfoldable pub flush : List ToolResult → List AnthropicMessage → List AnthropicMessage
flush [] rest = rest
flush (r ∷ rs) rest = results (r ∷ rs) ∷ rest

-- The loop of `_to_anthropic_messages`, with `pending_results`.
unfoldable pub convert : List ToolResult → List Entry → List AnthropicMessage
unfolding flush assistant_message
convert pending [] = flush pending []
convert pending (tool id name content is_error ∷ es) =
    convert (pending ++ tool_result id content is_error ∷ []) es
convert pending (user content ∷ es) =
    flush pending (AnthropicMessage.plain "user" content ∷ convert [] es)
convert pending (system content ∷ es) =
    flush pending (AnthropicMessage.plain "system" content ∷ convert [] es)
convert pending (assistant content calls raw ∷ es) =
    flush pending (assistant_message content calls raw ∷ convert [] es)

-- `_to_anthropic_messages`
unfoldable pub to_anthropic_messages : List Entry → List AnthropicMessage
unfolding convert
to_anthropic_messages es = convert [] es
