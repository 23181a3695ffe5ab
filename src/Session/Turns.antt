-- ===== src/Session/Turns.antt =====
-- The text turns of `_OrchestratorSession` in app/modules/session/router.py: `_run_text_turn` with
-- the streamed answer, its tool calls and `_resolve_read_tool`, and `_stamp_actions`.
pub mod Loop
pub mod Pieces
pub mod Speaking
pub mod Stamping
pub mod Closing
pub mod Asking
pub mod Pairing
mod Tests
use grafux_orchestrator.Prelude.{
  ℕ, zero, suc, String, ◌<>◌, ◌==◌, Bool, true, false, ◌||◌, not, Option, none, some, List, [], ◌∷◌,
  ◌++◌, map, show, ltb, ◌=ℕ◌, one_of, replace, strip, lower, if◌then◌else◌, Table, find, assign,
}
use grafux_orchestrator.Python.{
  Value, null, flag, num, neg, real, text, arr, obj, Items, nil, cons, Fields, end, field, to_str,
  get, get_or, put, type_name, Outcome, ok, raised, cancelled,
}
use grafux_orchestrator.Exec.{Exec, reads, pure, lift, gets, modify, skip, try_except, ◌>>=◌, ◌>>◌}
use grafux_orchestrator.CanvasContext.{build_diagram_context, parse_actions_tag}
use grafux_orchestrator.Session.Port.{
  Asked, Read, unaddressed, read_of, read_of_call, no_address, port_request, read_answer,
}

-- A tool call as its pieces are put together; later, as it is answered.
pub record StreamedCall : Type 0 where
  pub id : String
  pub name : String
  pub arguments : String

-- An entry of a conversation's history.
pub data Said : Type 0 where
  by_user by_assistant : String → Said

-- A message of a prompt. An empty text of the assistant is sent as null.
pub data Prompt : Type 0 where
  system : String → Prompt
  said : Said → Prompt
  called : (segment_text : String) → List StreamedCall → Prompt
  result : (tool_call_id : String) → Value → Prompt

-- A piece of a tool call, and a chunk of the stream; what is None there is empty here.
pub record CallPiece : Type 0 where
  pub index : ℕ
  pub call : StreamedCall

pub record StreamChoice : Type 0 where
  pub content : String
  pub tool_calls : List CallPiece
  pub finish_reason : String

-- What the turn sends to the client.
pub data Sent : Type 0 where
  text_chunk : String → Sent
  error_message : String → Sent
  turn_complete : (full_text : String) → (actions : Value) → Sent

-- The session, as a turn sees it. The newest of `sent`, `prompts` and `enriching` comes first;
-- `enriching` are the actions of the enrichment tasks that were started.
pub record Chat (W : Type 0) : Type 0 where
  pub canvas_blocks : List Fields
  pub active_blocks : List Fields
  pub saved_library : List Fields
  pub histories : Table (List Said)
  pub sent : List Sent
  pub prompts : List (List Prompt)
  pub enriching : List Value
  pub world : W

-- What is outside. `stream` answers a prompt with the chunks that came, and how their stream ended;
-- a chunk without choices is `none`. `reply` is `_request_port_content`, and `new_id` is
-- `uuid.uuid4().hex[:8]`.
pub record Services (W : Type 0) : Type 0 where
  pub openai_api_key : String
  pub raw_prompt : String
  pub loads : String → Outcome Value
  pub stream : List Prompt → W → (List (Option StreamChoice) × Outcome (Unit {0})) × W
  pub reply : Asked → W → Outcome Fields × W
  pub new_id : W → String × W

-- The keys of `_ENRICHERS` in app/modules/session/enrichment.py
abbrev pub enrichers : List String
enrichers =
    "tools" ∷ "code" ∷ "topics" ∷ "components" ∷ "procedures" ∷ "commands" ∷ "image" ∷ "location"
    ∷ "plotter" ∷ "live" ∷ "stream" ∷ "gpu" ∷ "claw" ∷ "devices" ∷ "memory" ∷ "selection" ∷ "filter"
    ∷ "white_board" ∷ "verilator" ∷ "yosys" ∷ "openroad" ∷ "openram" ∷ "opengcram"
    ∷ "analogue_simulator" ∷ "testbench" ∷ "code_hdl" ∷ "spec_hdl" ∷ "code_fix"
    ∷ "post_silicon_verification" ∷ "cpu" ∷ []

-- `is_enrichable`
unfoldable pub is_enrichable : Value → Bool
unfolding get_or to_str strip lower
is_enrichable (obj shown action) = elim (get_or "type" null action) [
  | text kind ↦
      if kind == "create_block"
      then one_of (lower (strip (to_str (get_or "block_type" (text "") action)))) enrichers
      else false
  | v ↦ false
]
is_enrichable v = false

-- `action.setdefault("action_id", id)`
unfoldable pub default_action_id : String → Fields → Fields
unfolding get put
default_action_id id action = elim (get "action_id" action) [
  | none ↦ put "action_id" (text id) action
  | some v ↦ action
]

-- A pass of the loop of `_stamp_actions`, over the id that was made.
unfoldable pub stamp : String → Value → Value
unfolding default_action_id is_enrichable put
stamp id (obj shown action) =
    let named = default_action_id id action in
    obj shown (if is_enrichable (obj shown named) then put "pending" (flag true) named else named)
stamp id v = v

-- Whether the loop makes an id for the action.
unfoldable pub is_creation : Value → Bool
unfolding get_or
is_creation (obj shown action) = elim (get_or "type" null action) [
  | text kind ↦ kind == "create_block"
  | v ↦ false
]
is_creation v = false

-- The calls by their index, in the order of the first piece of each.
abbrev pub Slots : Type 0
Slots = List (ℕ × StreamedCall)

abbrev pub or_old : String → String → String
or_old new old = if new == "" then old else new

-- What a piece makes of its call: an id and a name replace the old ones, arguments are added.
abbrev pub grown : StreamedCall → StreamedCall → StreamedCall
grown old piece = record {
  id = or_old piece.id old.id;
  name = or_old piece.name old.name;
  arguments = old.arguments <> piece.arguments;
}

abbrev pub blank_call : StreamedCall
blank_call = record { id = ""; name = ""; arguments = "" }

-- `tool_calls.setdefault(tc.index, …)`, and the changes of the slot.
unfoldable pub add_piece : ℕ → StreamedCall → Slots → Slots
add_piece i piece [] = (i, grown blank_call piece) ∷ []
add_piece i piece ((j, call) ∷ slots) =
    let rest = add_piece i piece slots in
    if i =ℕ j then (j, grown call piece) ∷ slots else (j, call) ∷ rest

unfoldable pub add_pieces : List CallPiece → Slots → Slots
unfolding add_piece
add_pieces [] slots = slots
add_pieces (p ∷ ps) slots = add_pieces ps (add_piece p.index p.call slots)

-- `sorted(tool_calls.items())`; no two slots have the same index.
unfoldable pub insert : ℕ × StreamedCall → Slots → Slots
insert slot [] = slot ∷ []
insert slot (other ∷ slots) =
    let rest = insert slot slots in
    if ltb other.0 slot.0 then other ∷ rest else slot ∷ other ∷ slots

unfoldable pub sorted : Slots → Slots
unfolding insert
sorted [] = []
sorted (slot ∷ slots) = insert slot (sorted slots)

unfoldable pub as_called : ℕ × StreamedCall → StreamedCall
unfolding show
as_called (i, call) = record {
  id = if call.id == "" then "call_" <> show i else call.id;
  name = call.name;
  arguments = if call.arguments == "" then "{}" else call.arguments;
}

-- `assistant_tool_calls`
unfoldable pub assistant_tool_calls : Slots → List StreamedCall
unfolding sorted as_called
assistant_tool_calls slots = map as_called (sorted slots)

-- The local variables of a pass of the tool loop, with `full_text`.
pub record Heard : Type 0 where
  pub segment_text : String
  pub full_text : String
  pub tool_calls : Slots
  pub finish_reason : String

abbrev pub nothing_heard : String → Heard
nothing_heard full_text = record {
  segment_text = "";
  full_text = full_text;
  tool_calls = [];
  finish_reason = "";
}

unfoldable pub heard : StreamChoice → Heard → Heard
unfolding add_pieces
heard choice h = record {
  segment_text = h.segment_text <> choice.content;
  full_text = h.full_text <> choice.content;
  tool_calls = add_pieces choice.tool_calls h.tool_calls;
  finish_reason = if choice.finish_reason == "" then h.finish_reason else choice.finish_reason;
}

abbrev pub has_calls : Slots → Bool
has_calls [] = false
has_calls (slot ∷ slots) = true

-- `json.loads(arguments or "{}")`, or no arguments; what is no dictionary has no `get`.
unfoldable pub read_args : Outcome Value → Outcome Fields
read_args (ok (obj shown args)) = ok args
read_args (ok v) = raised ("'" <> (type_name v <> "' object has no attribute 'get'"))
read_args r = ok end

unfoldable pub history_of : String → Table (List Said) → List Said
unfolding find
history_of id histories = elim (find id histories) [ none ↦ [] | some entries ↦ entries ]

-- `history.append(entry)`
unfoldable pub append_entry : String → Said → Table (List Said) → Table (List Said)
unfolding history_of assign
append_entry id entry histories = assign id (history_of id histories ++ entry ∷ []) histories
