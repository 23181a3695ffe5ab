-- ===== src/Session/Turns/Tests.antt =====
-- A text turn of app/modules/session/router.py in which the model reads a port and then creates a
-- block: witnesses and tests.
use grafux_orchestrator.Prelude.{
  ℕ, suc, String, ◌==◌, ◌≡◌, refl, true, Option, none, some, List, [], ◌∷◌, if◌then◌else◌,
}
use grafux_orchestrator.Python.{flag, text, arr, obj, nil, cons, Fields, end, field, Outcome, ok}
use grafux_orchestrator.Session.Turns.{
  CallPiece, StreamChoice, by_user, by_assistant, Prompt, system, said, called, result, text_chunk,
  turn_complete, error_message, Chat, Services, add_pieces, sorted,
}
use grafux_orchestrator.Session.Turns.Loop.{run_text_turn, turn_context}
use grafux_orchestrator.Session.Turns.Pieces.{IsGathered, sorted-IsGathered}
use grafux_orchestrator.Session.Turns.Closing.{Concluded, heard_user, run_text_turn-Concluded}

abbrev arguments : String
arguments = "{\"target_block\": \"alu\", \"port_name\": \"out\"}"

abbrev piece : ℕ → String → String → String → CallPiece
piece i id name arguments = record {
  index = i;
  call = record { id = id; name = name; arguments = arguments };
}

-- Two calls whose pieces are mixed, the second one first.
abbrev pieces : List CallPiece
pieces =
    piece 1 "c2" "read_port_value" ""
    ∷ piece 0 "c1" "read_port_value" "{\"target_block\": \"alu\""
    ∷ piece 1 "" "" "{}"
    ∷ piece 0 "" "" ", \"port_name\": \"out\"}"
    ∷ []

sorted-IsGathered_example : IsGathered pieces (sorted (add_pieces pieces []))
sorted-IsGathered_example = sorted-IsGathered pieces

sorted-mixed :
    sorted (add_pieces pieces [])
    ≡ (0, record { id = "c1"; name = "read_port_value"; arguments = arguments })
      ∷ (1, record { id = "c2"; name = "read_port_value"; arguments = "{}" })
      ∷ []
unfolding sorted add_pieces
sorted-mixed = refl

abbrev chunk : String → List CallPiece → String → Option StreamChoice
chunk content tool_calls finish_reason =
    some (record { content = content; tool_calls = tool_calls; finish_reason = finish_reason })

-- The block that the model creates, and as it is stamped.
abbrev creation : Fields
creation = field "type" (text "create_block") (field "block_type" (text "tools") end)

abbrev stamped : Fields
stamped = field "type" (text "create_block") (
    field "block_type" (text "tools")
      (field "action_id" (text "a1") (field "pending" (flag true) end)))

-- The world counts the prompts.
abbrev answers : ℕ → List (Option StreamChoice) × Outcome (Unit {0})
answers ℕ.zero = (
  none
      ∷ chunk "I look. " [] ""
      ∷ chunk "" (piece 0 "" "read_port_value" "{\"target_block\": \"alu\"" ∷ []) ""
      ∷ chunk "" (piece 0 "" "" ", \"port_name\": \"out\"}" ∷ []) "tool_calls"
      ∷ [],
  ok tt,
)
answers (suc n) = (chunk "It is 7. ##ACTIONS## {…}" [] "stop" ∷ [], ok tt)

abbrev services : Services ℕ
services = record {
  openai_api_key = "sk";
  raw_prompt = "Help. {DIAGRAM_CONTEXT}";
  loads = λ s.
      if s == arguments
      then ok (obj "" (field "target_block" (text "alu") (field "port_name" (text "out") end)))
      else ok (obj "" (field "actions" (arr "" (cons (obj "" creation) nil)) end));
  stream = λ messages w. (answers w, suc w);
  reply = λ request w. (ok (field "found" (flag true) (field "content" (text "7") end)), w);
  new_id = λ w. ("a1", w);
}

abbrev fresh : Chat ℕ
fresh = record {
  canvas_blocks = [];
  active_blocks = [];
  saved_library = [];
  histories = [];
  sent = [];
  prompts = [];
  enriching = [];
  world = 0;
}

-- What the client gets, the newest first.
run_text_turn-sent :
    (run_text_turn services "What is out?" "diagram" fresh).1.sent
    ≡ turn_complete "I look. It is 7." (arr "" (cons (obj "" stamped) nil))
      ∷ text_chunk "It is 7. ##ACTIONS## {…}"
      ∷ text_chunk "I look. "
      ∷ []
unfolding run_text_turn
run_text_turn-sent = refl

abbrev opening : List Prompt
opening = system "Help. No diagram loaded yet." ∷ said (by_user "What is out?") ∷ []

run_text_turn-prompts :
    (run_text_turn services "What is out?" "diagram" fresh).1.prompts
    ≡ (system "Help. No diagram loaded yet."
        ∷ said (by_user "What is out?")
        ∷ called "I look. "
            (record { id = "call_0"; name = "read_port_value"; arguments = arguments } ∷ [])
        ∷ result "call_0" (text "7")
        ∷ [])
      ∷ opening
      ∷ []
unfolding run_text_turn
run_text_turn-prompts = refl

run_text_turn-histories :
    (run_text_turn services "What is out?" "diagram" fresh).1.histories
    ≡ ("diagram", by_user "What is out?" ∷ by_assistant "I look. It is 7." ∷ []) ∷ []
unfolding run_text_turn
run_text_turn-histories = refl

-- Arguments that are no dictionary end the turn with an error.
run_text_turn-listed :
    (run_text_turn
      (record services { loads = λ s. ok (arr "[]" nil) })
      "What is out?"
      "diagram"
      fresh).1.sent
    ≡ error_message "'list' object has no attribute 'get'" ∷ text_chunk "I look. " ∷ []
unfolding run_text_turn
run_text_turn-listed = refl

run_text_turn-Concluded_example :
    Concluded services "diagram"
      (heard_user "What is out?" "diagram" fresh)
      (run_text_turn services "What is out?" "diagram" fresh)
unfolding turn_context
run_text_turn-Concluded_example =
    run_text_turn-Concluded services "What is out?" "diagram" fresh "No diagram loaded yet." refl
      refl
