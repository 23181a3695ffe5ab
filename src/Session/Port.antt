-- ===== src/Session/Port.antt =====
-- The `CanvasPort` that `_OrchestratorSession` of app/modules/session/router.py is to its agents:
-- `act`, `read_port`, `ask`, `_request_port_content` and `_resolve_read_tool`, each as what it asks of
-- the client, how long it waits, and what it makes of the reply.
use grafux_orchestrator.Prelude.{
  String, ◌<>◌, ◌==◌, Bool, false, ◌||◌, List, [], ◌∷◌, one_of, if◌then◌else◌,
}
use grafux_orchestrator.Python.{
  Value, null, text, obj, Fields, end, field, truthy, to_str, get_or, word, or_text,
}
use grafux_orchestrator.CanvasTools.{default_target_block}
use grafux_orchestrator.Session.Requests.{Patience}

-- A request: the message, the block that owns it, and the patience.
pub record Asked : Type 0 where
  pub message : Fields
  pub owner_block_id : String
  pub patience : Patience

abbrev pub run_actions : List String
run_actions = "run_block" ∷ "regenerate_block" ∷ []

-- `action.get("type") in self.RUN_ACTIONS`
unfoldable pub is_run : Fields → Bool
unfolding get_or
is_run action = elim (get_or "type" null action) [ text s ↦ one_of s run_actions | v ↦ false ]

unfoldable pub act_patience : Fields → Patience
unfolding is_run get_or to_str
act_patience action =
    let kind = to_str (get_or "type" null action) in
    if is_run action
    then record {
      idle_timeout = 180000;
      hard_timeout = 2700000;
      what = kind <> (" on " <> to_str (get_or "target_block" (text "the block") action));
    }
    else record { idle_timeout = 30000; hard_timeout = 120000; what = kind <> " action" }

-- `act`, once a block that is created was enriched. `shown` is the text of the action.
unfoldable pub act_request : String → Fields → Asked
unfolding act_patience get_or to_str
act_request shown action =
    let agent_block_id = get_or "agent_block_id" (text "") action in
    record {
      message = field "type" (text "agent_action") (
          field "action" (obj shown action)
            (field "expects" (text "result") (field "agent_block_id" agent_block_id end)));
      owner_block_id = to_str agent_block_id;
      patience = act_patience action;
    }

-- `_request_port_content`
unfoldable pub port_request : String → String → String → Asked
port_request target_block direction port_name = record {
  message = field "type" (text "read_port") (
      field "target_block" (text target_block)
        (field "direction" (text direction) (field "port_name" (text port_name) end)));
  owner_block_id = "";
  patience = record {
    idle_timeout = 12000;
    hard_timeout = 12000;
    what = "read of " <> (target_block <> ("." <> port_name));
  };
}

-- `ask`
unfoldable pub question_request : String → String → Asked
question_request block_id question = record {
  message =
      field "type" (text "agent_question")
        (field "block_id" (text block_id) (field "question" (text question) end));
  owner_block_id = "";
  patience = record { idle_timeout = 600000; hard_timeout = 600000; what = "question" };
}

unfoldable pub question_answer : Fields → String
unfolding word
question_answer result = word "answer" result

-- What the model is told of the reply to a read.
unfoldable pub read_answer : String → String → String → Fields → Value
unfolding get_or truthy
read_answer target_block direction port_name result =
    let content = get_or "content" (text "") result in
    if truthy (get_or "found" null result)
    then (if truthy content then content else text "(the port file is empty)")
    else text (
        "Could not read "
        <> (direction
            <> (" port \""
                <> (port_name
                    <> ("\" on block \""
                        <> (target_block <> "\" (file empty, missing, or client unavailable)."))))))

-- What a call of the tool asks for: nothing without a port and a block.
pub data Read : Type 0 where
  unaddressed : Read
  read_of : (target_block direction port_name : String) → Read

-- `_resolve_read_tool`, up to the request
unfoldable pub read_of_call : List Fields → Fields → Read
unfolding word default_target_block
read_of_call active_blocks args =
    let target_block = or_text (word "target_block" args) (default_target_block active_blocks) in
    let direction = or_text (word "direction" args) "output" in
    let port_name = word "port_name" args in
    if target_block == "" || port_name == ""
    then unaddressed
    else read_of target_block direction port_name

abbrev pub no_address : String
no_address =
    "Error: port_name is required, and target_block is required unless exactly one block is active."
