-- ===== src/LanguageModel/Tests.antt =====
-- Concrete runs of app/core/llm.py: the witnesses of the properties, and tests.
use grafux_orchestrator.Prelude.{
  ℕ, ◌+◌, String, ◌≡◌, refl, ◌↔◌, true, false, none, some, List, [], ◌∷◌, map, arith,
}
use grafux_orchestrator.Python.{null, num, obj, end, field}
use grafux_orchestrator.BlockAgent.Data.{ToolCall, ToolTurn, Entry, user, assistant, tool, system}
use grafux_orchestrator.LanguageModel.Attempt.{Failure, returns, fails}
use grafux_orchestrator.LanguageModel.Provider.{
  Settings, resolve_provider, strip_code_fences, is_anthropic_auth_failure,
}
use grafux_orchestrator.LanguageModel.Transcript.{
  tool_result, AnthropicMessage, results, rebuilt, tool_use, openai_message, to_anthropic_messages,
}
use grafux_orchestrator.LanguageModel.Transcript.Coalescing.{
  told, piece_of, IsCoalesced, to_anthropic_messages_unique,
}
use grafux_orchestrator.LanguageModel.Vendors.{
  Choice, Completion, AnthropicRequest, Vendors, Process, anthropic_available, to_anthropic,
}
use grafux_orchestrator.LanguageModel.Chats.{openai_turn}
use grafux_orchestrator.LanguageModel.Calls.{call_llm_tools, make_chat_model}
use grafux_orchestrator.LanguageModel.RoundTrip.{as_answer, openai_turn-openai_message}
use grafux_orchestrator.LanguageModel.Latch.{
  Step, take_steps, anthropic_branch, Avoids, refused_steps-Avoids, transient-raised,
}
use grafux_orchestrator.LanguageModel.Honesty.{IsHonest, call_llm_tools-IsHonest}

abbrev settings : Settings
settings = record { openai_model = "gpt-4o"; openai_api_key = "sk"; anthropic_api_key = "ak" }

resolve_provider-claude :
    (resolve_provider settings (some " Claude-opus-5 ") ≡ ("anthropic", "Claude-opus-5"))
    × (resolve_provider settings (some "mistral") ≡ ("openai", "gpt-4o"))
    × (resolve_provider settings none ≡ ("openai", "gpt-4o"))
unfolding resolve_provider
resolve_provider-claude = (refl, refl, refl)

strip_code_fences-json : strip_code_fences " ```json\n{}\n``` " ≡ "{}"
unfolding strip_code_fences
strip_code_fences-json = refl

-- A model that fails with this status.
abbrev status_error : ℕ → Failure
status_error code = record {
  class_name = "APIStatusError";
  is_value_error = false;
  message = "refused";
  status_code = some code;
  response_status = none;
}

-- Two calls of one turn with their results, and a new instruction.
abbrev call : String → ToolCall
call id = record { id = id; name = "read_port_value"; arguments = end }

abbrev transcript : List Entry
transcript =
    user "go"
    ∷ assistant "" (call "a" ∷ call "b" ∷ []) null
    ∷ tool "a" "read_port_value" "x" false
    ∷ tool "b" "read_port_value" "" true
    ∷ system "canvas"
    ∷ []

abbrev wire : List AnthropicMessage
wire =
    AnthropicMessage.plain "user" "go"
    ∷ rebuilt (tool_use "a" "read_port_value" end ∷ tool_use "b" "read_port_value" end ∷ [])
    ∷ results (tool_result "a" "x" false ∷ tool_result "b" "" true ∷ [])
    ∷ AnthropicMessage.plain "system" "canvas"
    ∷ []

to_anthropic_messages-transcript : to_anthropic_messages transcript ≡ wire
unfolding to_anthropic_messages
to_anthropic_messages-transcript = refl

to_anthropic_messages_unique_example :
    (to_anthropic_messages transcript ≡ wire)
    ↔ ((told wire ≡ map piece_of transcript) × IsCoalesced wire)
to_anthropic_messages_unique_example = to_anthropic_messages_unique transcript wire

abbrev completion : Completion
completion = record {
  choices =
      record {
        content = some "hi";
        tool_calls = record { id = none; name = "run_block"; arguments = "{}" } ∷ [];
      }
      ∷ [];
  prompt_tokens = some 3;
  completion_tokens = none;
}

-- A clock that each request moves by a second; Anthropic answers with the failure.
abbrev vendors : Failure → Vendors ℕ
vendors e = record {
  settings = settings;
  openai_create = λ request now. (returns completion, now + 1000);
  anthropic_create = λ request now. (fails e, now + 1000);
  loads = λ s. returns (obj "{}" end);
  dumps = λ fs. "{}";
  monotonic = λ now. now;
}

abbrev process : Process ℕ
process = record { world = 5; disabled_until = 0; disabled_reason = ""; requests = [] }

abbrev claude_step : Step
claude_step = record {
  system = "s";
  messages = transcript;
  declarations = [];
  model = some "claude-opus-5";
  tuning = record { max_tokens = 16000; temperature = null; effort = "high" };
}

make_chat_model-claude :
    make_chat_model (vendors (status_error 401)) (some "claude-opus-5") process
    ≡ ("ChatAnthropic", "claude-opus-5")
unfolding make_chat_model
make_chat_model-claude = refl

refused_steps-Avoids_example :
    Avoids
      (anthropic_branch (vendors (status_error 401)) claude_step process).1.requests
      901005
      (take_steps (vendors (status_error 401)) (claude_step ∷ claude_step ∷ []) process)
unfolding call_llm_tools anthropic_available resolve_provider is_anthropic_auth_failure
refused_steps-Avoids_example =
    refused_steps-Avoids (vendors (status_error 401)) claude_step (claude_step ∷ []) process
      (status_error 401) refl refl refl (omega arith, tt)

transient-raised_example :
    let (r, t) =
      call_llm_tools
        (vendors (status_error 529))
        "s"
        transcript
        []
        (some "claude-opus-5")
        claude_step.tuning
        process in
    (r ≡ fails (status_error 529))
    × ((request : AnthropicRequest) × (t.requests ≡ to_anthropic request ∷ []))
    × (t.disabled_until ≡ 0)
unfolding call_llm_tools anthropic_available resolve_provider is_anthropic_auth_failure
transient-raised_example =
    transient-raised (vendors (status_error 529)) claude_step process (status_error 529) refl refl
      refl

call_llm_tools-IsHonest_example : IsHonest (
    call_llm_tools
      (vendors (status_error 401))
      "s"
      transcript
      []
      (some "claude-opus-5")
      claude_step.tuning
      process)
call_llm_tools-IsHonest_example =
    call_llm_tools-IsHonest (vendors (status_error 401)) "s" transcript [] (some "claude-opus-5")
      claude_step.tuning process

abbrev answered : ToolTurn
answered = record {
  text = "hi";
  tool_calls = record { id = "call_0"; name = "run_block"; arguments = end } ∷ [];
  stop_reason = "tool_use";
  usage = field "input_tokens" (num 3) (field "output_tokens" (num 0) end);
  provider = "openai";
  model = "gpt-4o";
  raw_content = null;
}

abbrev choice : Choice
choice = record {
  content = some "hi";
  tool_calls = record { id = none; name = "run_block"; arguments = "{}" } ∷ [];
}

openai_turn-openai_message_example :
    openai_turn
      (vendors (status_error 500))
      "gpt-4o"
      completion
      (as_answer (openai_message (λ fs. "{}") (assistant "hi" answered.tool_calls null)))
    ≡ answered
unfolding openai_turn
openai_turn-openai_message_example =
    openai_turn-openai_message (vendors (status_error 500)) "gpt-4o" completion choice
      (record { shown = "{}"; same = refl; written = refl }, tt)
