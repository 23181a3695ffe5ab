-- ===== src/LanguageModel/Vendors.antt =====
-- What app/core/llm.py asks of OpenAI, Anthropic, `json` and the clock, and what it keeps between
-- calls: the latch `_anthropic_disabled_until`. Times in milliseconds.
use grafux_orchestrator.Prelude.{
  ℕ, ◌+◌, String, ◌==◌, Bool, not, ◌&&◌, Option, List, ◌∷◌, ltb, if◌then◌else◌,
}
use grafux_orchestrator.Python.{Value, Fields}
use grafux_orchestrator.LanguageModel.Attempt.{
  Failure, Attempt, fails, value_error, runtime_error, Action, give, attempt,
}
use grafux_orchestrator.LanguageModel.Provider.{Settings, is_anthropic_auth_failure}
use grafux_orchestrator.Prelude.{has}
use grafux_orchestrator.LanguageModel.Transcript.{
  OpenaiMessage, OpenaiTool, AnthropicMessage, AnthropicTool,
}

-- The arguments of `client.chat.completions.create`. `tools` and `max_tokens` are passed by the
-- tool calls only.
pub record OpenaiRequest : Type 0 where
  pub model : String
  pub messages : List OpenaiMessage
  pub temperature : Value
  pub json_object : Bool
  pub max_tokens : Option ℕ
  pub tools : List OpenaiTool

-- The arguments of `client.messages.create`. `effort` stands for adaptive thinking with its effort.
pub record AnthropicRequest : Type 0 where
  pub model : String
  pub max_tokens : ℕ
  pub system : String
  pub cached : Bool
  pub messages : List AnthropicMessage
  pub effort : Option String
  pub tools : List AnthropicTool

-- A tool call in an answer of OpenAI, and the answer's message.
pub record RawCall : Type 0 where
  pub id : Option String
  pub name : String
  pub arguments : String

pub record Choice : Type 0 where
  pub content : Option String
  pub tool_calls : List RawCall

pub record Completion : Type 0 where
  pub choices : List Choice
  pub prompt_tokens : Option ℕ
  pub completion_tokens : Option ℕ

-- A block in an answer of Anthropic; other blocks are thinking.
pub data ReplyBlock : Type 0 where
  text_block : String → ReplyBlock
  tool_use_block : (id name : String) → (input : Value) → ReplyBlock
  other_block : ReplyBlock

-- `raw` is the list `content` as the value that is kept and sent back.
pub record Message : Type 0 where
  pub stop_reason : String
  pub explanation : Option String
  pub content : List ReplyBlock
  pub raw : Value
  pub input_tokens : Option ℕ
  pub output_tokens : Option ℕ
  pub cache_read_input_tokens : Option ℕ
  pub cache_creation_input_tokens : Option ℕ

pub record Vendors (W : Type 0) : Type 0 where
  pub settings : Settings
  pub openai_create : OpenaiRequest → W → Attempt Completion × W
  pub anthropic_create : AnthropicRequest → W → Attempt Message × W
  pub loads : String → Attempt Value
  pub dumps : Fields → String
  pub monotonic : W → ℕ

pub data Request : Type 0 where
  to_openai : OpenaiRequest → Request
  to_anthropic : AnthropicRequest → Request

-- The process: the world, the latch, and the requests so far, the newest first.
pub record Process (W : Type 0) : Type 0 where
  pub world : W
  pub disabled_until : ℕ
  pub disabled_reason : String
  pub requests : List Request

-- `_ANTHROPIC_AUTH_COOLDOWN_S`
abbrev pub anthropic_auth_cooldown : ℕ
anthropic_auth_cooldown = 900000

module _ {W : Type 0} where
  abbrev pub note : Request → W → Process W → Process W
  note request w s = record s { world = w; requests = request ∷ s.requests }

  -- `reset_anthropic_fallback`
  abbrev pub reset_anthropic_fallback : Process W → Process W
  reset_anthropic_fallback s = record s { disabled_until = 0; disabled_reason = "" }

module _ {W : Type 0} (vendors : Vendors W) where
  -- `get_async_openai().chat.completions.create(...)`
  unfoldable pub ask_openai : OpenaiRequest → Action (Process W) Completion
  ask_openai request s =
      if vendors.settings.openai_api_key == ""
      then (fails (value_error "OPENAI_API_KEY not configured"), s)
      else (let (r, w) = vendors.openai_create request s.world in (r, note (to_openai request) w s))

  -- `get_async_anthropic().messages.create(...)`
  unfoldable pub ask_anthropic : AnthropicRequest → Action (Process W) Message
  ask_anthropic request s =
      if vendors.settings.anthropic_api_key == ""
      then (fails (value_error "ANTHROPIC_API_KEY not configured"), s)
      else (let (r, w) = vendors.anthropic_create request s.world in
          (r, note (to_anthropic request) w s))

  -- `_disable_anthropic`
  unfoldable pub disable_anthropic : String → Process W → Process W
  disable_anthropic reason s = record s {
    disabled_until = vendors.monotonic s.world + anthropic_auth_cooldown;
    disabled_reason = reason;
  }

  -- `_anthropic_available`
  unfoldable pub anthropic_available : String → Process W → Bool
  anthropic_available provider s =
      provider == "anthropic"
      && (not (vendors.settings.anthropic_api_key == "")
          && not (ltb (vendors.monotonic s.world) s.disabled_until))

  module _ {A : Type 0} where
    -- The inner `except ValueError` of `_with_anthropic_fallback`.
    unfoldable pub no_fallback : Failure → Action (Process W) A
    unfolding has
    no_fallback inner =
        if inner.is_value_error && has inner.message "OPENAI_API_KEY"
        then give (
            fails (
              runtime_error
                "Claude rejected this server's ANTHROPIC_API_KEY and there is no OPENAI_API_KEY configured to fall back to. Set a valid ANTHROPIC_API_KEY (or OPENAI_API_KEY) on the grafux-orchestrator service."))
        else give (fails inner)

    -- The `except` of `_with_anthropic_fallback`.
    unfoldable pub fall_back : Action (Process W) A → Failure → Action (Process W) A
    unfolding attempt is_anthropic_auth_failure disable_anthropic no_fallback
    fall_back fallback e s =
        if is_anthropic_auth_failure e
        then attempt fallback no_fallback (disable_anthropic e.message s)
        else (fails e, s)

    unfoldable pub with_anthropic_fallback :
        Action (Process W) A → Action (Process W) A → Action (Process W) A
    unfolding attempt fall_back
    with_anthropic_fallback first fallback = attempt first (fall_back fallback)

    -- The end of each entry point.
    unfoldable pub route :
        String → Action (Process W) A → Action (Process W) A → Action (Process W) A
    unfolding anthropic_available with_anthropic_fallback
    route provider anthropic openai s =
        if anthropic_available provider s
        then with_anthropic_fallback anthropic openai s
        else openai s
