-- ===== src/LanguageModel/Chats.antt =====
-- `_openai_chat`, `_anthropic_chat`, `_openai_tools_chat`, `_anthropic_tools_chat` and `_loads_args`
-- of app/core/llm.py.
use grafux_orchestrator.Prelude.{
  ℕ, suc, String, ◌<>◌, ◌==◌, Bool, true, false, Option, none, some, List, [], ◌∷◌, show,
  if◌then◌else◌,
}
use grafux_orchestrator.Python.{Value, obj, text, num, null, Fields, end, field, or_text}
use grafux_orchestrator.BlockAgent.Data.{ToolCall, ToolTurn, Entry}
use grafux_orchestrator.LanguageModel.Attempt.{
  Attempt, returns, fails, index_error, Action, give, ◌>>=◌,
}
use grafux_orchestrator.LanguageModel.Provider.{supports_adaptive_thinking}
use grafux_orchestrator.LanguageModel.Transcript.{
  Declaration, to_openai_tools, to_anthropic_tools, OpenaiMessage, to_openai_messages,
  AnthropicMessage, to_anthropic_messages,
}
use grafux_orchestrator.LanguageModel.Vendors.{
  OpenaiRequest, AnthropicRequest, RawCall, Choice, Completion, ReplyBlock, text_block,
  tool_use_block, Message, Vendors, Process, ask_openai, ask_anthropic,
}

-- The parameters of `call_llm_tools` that the providers read one each.
pub record Tuning : Type 0 where
  pub max_tokens : ℕ
  pub temperature : Value
  pub effort : String

abbrev pub or_blank : Option String → String
or_blank none = ""
or_blank (some s) = s

-- `n or 0`, as the value of a count.
abbrev pub tally : Option ℕ → Value
tally none = num 0
tally (some n) = num n

-- The text of the first text block.
unfoldable pub first_text : List ReplyBlock → String
first_text [] = ""
first_text (text_block s ∷ bs) = s
first_text (b ∷ bs) = first_text bs

-- `"".join(text_parts)`
unfoldable pub text_parts : List ReplyBlock → String
text_parts [] = ""
text_parts (text_block s ∷ bs) = s <> text_parts bs
text_parts (b ∷ bs) = text_parts bs

-- What `_loads_args` keeps of a parsed value.
abbrev pub object_fields : Value → Fields
object_fields (obj shown fields) = fields
object_fields v = end

-- `"tool_use" if calls else "end"`
abbrev pub stop_reason_of : List ToolCall → String
stop_reason_of [] = "end"
stop_reason_of (call ∷ calls) = "tool_use"

abbrev pub first_choice : List Choice → Attempt Choice
first_choice [] = fails index_error
first_choice (c ∷ cs) = returns c

-- The arguments that `_anthropic_tools_chat` passes.
unfoldable pub anthropic_request :
    String → List Entry → List Declaration → String → Tuning → AnthropicRequest
unfolding to_anthropic_messages to_anthropic_tools supports_adaptive_thinking
anthropic_request system messages declarations model tuning = record {
  model = model;
  max_tokens = tuning.max_tokens;
  system = system;
  cached = true;
  messages = to_anthropic_messages messages;
  effort = if supports_adaptive_thinking model then some tuning.effort else none;
  tools = to_anthropic_tools declarations;
}

module _ {W : Type 0} (vendors : Vendors W) where
  -- `except (TypeError, ValueError): return {}`
  abbrev pub parsed_fields : Attempt Value → Fields
  parsed_fields (returns v) = object_fields v
  parsed_fields r = end

  -- `_loads_args` of a text.
  unfoldable pub loads_args : String → Fields
  loads_args raw = parsed_fields (vendors.loads (or_text raw "{}"))

  -- `_loads_args` of a value that Anthropic's client has parsed.
  unfoldable pub loads_input : Value → Fields
  unfolding loads_args
  loads_input (obj shown fields) = fields
  loads_input (text s) = loads_args s
  loads_input null = loads_args ""
  loads_input v = end

  -- The calls of an answer, from the place `i` on.
  unfoldable pub read_calls : ℕ → List RawCall → List ToolCall
  unfolding loads_args show
  read_calls i [] = []
  read_calls i (c ∷ cs) =
      record {
        id = or_text (or_blank c.id) ("call_" <> show i);
        name = c.name;
        arguments = loads_args c.arguments;
      }
      ∷ read_calls (suc i) cs

  unfoldable pub block_calls : List ReplyBlock → List ToolCall
  unfolding loads_input
  block_calls [] = []
  block_calls (tool_use_block id name input ∷ bs) =
      record { id = id; name = name; arguments = loads_input input } ∷ block_calls bs
  block_calls (b ∷ bs) = block_calls bs

  unfoldable pub openai_chat : String → String → String → Value → Bool → Action (Process W) String
  unfolding ask_openai ◌>>=◌
  openai_chat system_prompt user_message model temperature want_json = do
    response ← ask_openai vendors (record {
      model = model;
      messages =
          OpenaiMessage.plain "system" system_prompt ∷ OpenaiMessage.plain "user" user_message ∷ [];
      temperature = temperature;
      json_object = want_json;
      max_tokens = none;
      tools = [];
    })
    choice ← give (first_choice response.choices)
    give (returns (or_blank choice.content))

  unfoldable pub anthropic_chat : String → String → String → ℕ → Bool → Action (Process W) String
  unfolding ask_anthropic first_text ◌>>=◌
  anthropic_chat system_prompt user_message model max_tokens want_json = do
    resp ← ask_anthropic vendors (record {
      model = model;
      max_tokens = max_tokens;
      system =
          if want_json
          then system_prompt
            <> "\n\nReturn ONLY a single valid JSON object. No markdown, no code fences, no prose."
          else system_prompt;
      cached = false;
      messages = AnthropicMessage.plain "user" user_message ∷ [];
      effort = none;
      tools = [];
    })
    give (returns (first_text resp.content))

  -- The turn that an answer of OpenAI is.
  unfoldable pub openai_turn : String → Completion → Choice → ToolTurn
  unfolding read_calls
  openai_turn model response choice =
      let calls = read_calls 0 choice.tool_calls in
      record {
        text = or_blank choice.content;
        tool_calls = calls;
        stop_reason = stop_reason_of calls;
        usage =
            field "input_tokens" (tally response.prompt_tokens)
              (field "output_tokens" (tally response.completion_tokens) end);
        provider = "openai";
        model = model;
        raw_content = null;
      }

  -- The arguments that `_openai_tools_chat` passes.
  unfoldable pub openai_request :
      String → List Entry → List Declaration → String → Tuning → OpenaiRequest
  unfolding to_openai_messages to_openai_tools
  openai_request system messages declarations model tuning = record {
    model = model;
    messages = OpenaiMessage.plain "system" system ∷ to_openai_messages vendors.dumps messages;
    temperature = tuning.temperature;
    json_object = false;
    max_tokens = some tuning.max_tokens;
    tools = to_openai_tools declarations;
  }

  unfoldable pub openai_tools_chat :
      String → List Entry → List Declaration → String → Tuning → Action (Process W) ToolTurn
  unfolding ask_openai openai_request openai_turn ◌>>=◌
  openai_tools_chat system messages declarations model tuning = do
    response ← ask_openai vendors (openai_request system messages declarations model tuning)
    choice ← give (first_choice response.choices)
    give (returns (openai_turn model response choice))

  -- The turn that an answer of Anthropic is.
  unfoldable pub anthropic_turn : String → Message → ToolTurn
  unfolding block_calls text_parts
  anthropic_turn model resp =
      let usage = field "input_tokens" (tally resp.input_tokens) (
        field "output_tokens" (tally resp.output_tokens) (
          field "cache_read_tokens" (tally resp.cache_read_input_tokens)
            (field "cache_write_tokens" (tally resp.cache_creation_input_tokens) end))) in
      if resp.stop_reason == "refusal"
      then record {
        text = or_text (or_blank resp.explanation) "the request was declined";
        tool_calls = [];
        stop_reason = "refusal";
        usage = usage;
        provider = "anthropic";
        model = model;
        raw_content = null;
      }
      else record {
        text = text_parts resp.content;
        tool_calls = block_calls resp.content;
        stop_reason = stop_reason_of (block_calls resp.content);
        usage = usage;
        provider = "anthropic";
        model = model;
        raw_content = resp.raw;
      }

  unfoldable pub anthropic_tools_chat :
      String → List Entry → List Declaration → String → Tuning → Action (Process W) ToolTurn
  unfolding ask_anthropic anthropic_request anthropic_turn ◌>>=◌
  anthropic_tools_chat system messages declarations model tuning = do
    resp ← ask_anthropic vendors (anthropic_request system messages declarations model tuning)
    give (returns (anthropic_turn model resp))
