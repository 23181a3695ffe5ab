-- ===== src/Workflow.antt =====
-- app/modules/workflow/engine.py: the nodes of the agent graph, its routing, and the end of a run;
-- with `route_tool_to_node` of app/core/constants.py.
pub mod Nodes
mod Tests
use grafux_orchestrator.Prelude.{
  ℕ, zero, suc, ◌<>◌, String, Bool, true, false, not, ◌&&◌, ◌||◌, Option, none, some, List, [], ◌∷◌,
  ◌++◌, ◌==◌, leb, starts_with, count, drop, strip, if◌then◌else◌,
}
use grafux_orchestrator.Python.{
  Value, null, text, Fields, end, field, truthy, to_str, get_or, put, Outcome, ok, raised,
  cancelled,
}

-- A tool call of the model, with its arguments as a `dict`. The key `id` may be missing, and an id
-- may be None.
pub record Call : Type 0 where
  pub name : String
  pub args : Value
  pub id : Option (Option String)

-- The messages of LangChain. The content of a model's message may be no text.
pub data Message : Type 0 where
  system : (content : String) → Message
  human : (content : String) → Message
  ai : (content : Option String) → (calls : List Call) → Message
  tool : (content id : String) → Message

-- `ExecutionState`
pub record State : Type 0 where
  pub execution_id : String
  pub org_id : String
  pub project_id : String
  pub workflow_id : Option String
  pub messages : List Message
  pub current_node : String
  pub tool_results : Fields
  pub agent_memory : Fields
  pub iteration : ℕ
  pub metadata : Fields
  pub error : Option String
  pub cancelled : Bool

-- What a node returns: the keys of its `dict` that are there.
pub record Update : Type 0 where
  pub messages : List Message
  pub tool_results : Option Fields
  pub iteration : Option ℕ
  pub error : Option String
  pub cancelled : Bool

abbrev pub nothing : Update
nothing = record {
  messages = [];
  tool_results = none;
  iteration = none;
  error = none;
  cancelled = false;
}

abbrev pub or_else {ℓ} : {A : Type ℓ} → Option A → A → A
or_else (some x) y = x
or_else none y = y

-- What `ExecutionState` declares of an update: messages are added, the other keys overwritten.
unfoldable pub merge : State → Update → State
merge s u = record s {
  messages = s.messages ++ u.messages;
  tool_results = or_else u.tool_results s.tool_results;
  iteration = or_else u.iteration s.iteration;
  error = elim u.error [ some e ↦ some e | none ↦ s.error ];
  cancelled = u.cancelled || s.cancelled;
}

-- `route_tool_to_node`
unfoldable pub route_tool_to_node : String → String
route_tool_to_node name =
    if starts_with name "mcp_" || starts_with name "grafux_"
    then "mcp"
    else if starts_with name "research_" || name == "web_search"
    then "research"
    else if starts_with name "sandbox_" || name == "execute_code"
    then "sandbox"
    else if starts_with name "device_"
    then "device"
    else "mcp"

-- The tool calls of the last message, if it has any.
unfoldable pub last_calls : List Message → List Call
last_calls [] = []
last_calls (ai content calls ∷ []) = calls
last_calls (m ∷ []) = []
last_calls (m ∷ n ∷ ms) = last_calls (n ∷ ms)

-- `_extract_last_user_query`: the last text of the user, or what was found so far.
unfoldable pub last_user_query : List Message → String → String
last_user_query [] found = found
last_user_query (human content ∷ ms) found = last_user_query ms content
last_user_query (m ∷ ms) found = last_user_query ms found

-- `s[s.find(mark) + len(mark):]` and `s[:s.find(mark)]`, if the mark is there.
unfoldable pub after_mark : String → String → Option String
unfolding drop
after_mark mark String.[] = none
after_mark mark (String.◌∷◌ c s) =
    let later = after_mark mark s in
    if starts_with (String.◌∷◌ c s) mark then some (drop (count mark) (String.◌∷◌ c s)) else later

unfoldable pub before_mark : String → String → Option String
before_mark mark String.[] = none
before_mark mark (String.◌∷◌ c s) =
    let later = before_mark mark s in
    if starts_with (String.◌∷◌ c s) mark
    then some ""
    else elim later [ some inside ↦ some (String.◌∷◌ c inside) | none ↦ none ]

-- The code up to the closing fence, unless it is empty.
unfoldable pub fenced : String → Option String
unfolding before_mark strip
fenced rest = elim (before_mark "```" rest) [
  | some inside ↦ if inside == "" then none else some (strip inside)
  | none ↦ none
]

-- The code of one message.
unfoldable pub code_of : String → Option String
unfolding after_mark fenced
code_of content = elim (after_mark "```python" content) [
  | some rest ↦ fenced rest
  | none ↦ elim (after_mark "```" content) [ some rest ↦ fenced rest | none ↦ none ]
]

unfoldable pub content_of : Message → String
content_of (system content) = content
content_of (human content) = content
content_of (ai (some content) calls) = content
content_of (ai none calls) = ""
content_of (tool content id) = content

-- `_extract_code_from_messages`: the code of the last message that has some, or what was found.
unfoldable pub code_in : List Message → String → String
unfolding code_of content_of
code_in [] found = found
code_in (m ∷ ms) found = code_in ms (or_else (code_of (content_of m)) found)

abbrev pub end_node : String
end_node = "__end__"

unfoldable pub route_calls : List Call → String
unfolding route_tool_to_node
route_calls [] = end_node
route_calls (c ∷ cs) = route_tool_to_node c.name

-- `bool(state.get("error"))`
abbrev pub is_set : Option String → Bool
is_set none = false
is_set (some e) = not (e == "")

-- `should_continue`, with the setting `max_execution_steps`
unfoldable pub should_continue : ℕ → State → String
unfolding route_calls last_calls
should_continue max_execution_steps s =
    if s.cancelled || is_set s.error
    then end_node
    else if leb max_execution_steps s.iteration
    then end_node
    else route_calls (last_calls s.messages)

-- The targets of the conditional edges of `build_graph`
abbrev pub edges : List String
edges = "mcp" ∷ "research" ∷ "sandbox" ∷ "device" ∷ end_node ∷ []

-- The edges of the graph: conditional ones from the agent, and one from each tool node back to it.
unfoldable pub next_node : ℕ → String → State → String
unfolding should_continue
next_node max_execution_steps node s =
    if node == "agent" then should_continue max_execution_steps s else "agent"

-- The last message of the model, and its text.
unfoldable pub last_text : List Message → String → String
last_text [] found = found
last_text (ai (some content) calls ∷ ms) found = last_text ms content
last_text (ai none calls ∷ ms) found = last_text ms ""
last_text (m ∷ ms) found = last_text ms found

-- `result` of `WorkflowEngine.run`
pub record Result : Type 0 where
  pub output : String
  pub tool_results : Fields
  pub iterations : ℕ
  pub error : Option String
  pub cancelled : Bool

unfoldable pub result_of : State → Result
unfolding last_text
result_of s = record {
  output = last_text s.messages "";
  tool_results = s.tool_results;
  iterations = s.iteration;
  error = s.error;
  cancelled = s.cancelled;
}

-- The event that ends a run.
unfoldable pub final_event : Result → String
final_event r =
    if r.cancelled
    then "execution.cancelled"
    else if is_set r.error
    then "execution.failed"
    else "execution.complete"

-- The messages of `initial_state` in `WorkflowEngine.run`, with the default prompt `build_app`. The
-- two inputs are texts, since a message takes no other value.
unfoldable pub initial_messages : String → Fields → List Message
unfolding get_or truthy to_str
initial_messages build_app input =
    let message = get_or "message" null input in
    let prompt = get_or "system_prompt" null input in
    let user = if truthy message then message else get_or "prompt" (text "") input in
    let system_text = if truthy prompt then to_str prompt else build_app in
    (if system_text == "" then [] else system system_text ∷ [])
    ++ (if truthy user then human (to_str user) ∷ [] else [])
