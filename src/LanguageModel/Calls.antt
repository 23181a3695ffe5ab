-- ===== src/LanguageModel/Calls.antt =====
-- `call_llm_text`, `call_llm_json`, `call_llm_tools` and `make_chat_model` of app/core/llm.py.
use grafux_orchestrator.Prelude.{ℕ, String, ◌==◌, true, false, Option, List, if◌then◌else◌}
use grafux_orchestrator.Python.{Value, or_text}
use grafux_orchestrator.BlockAgent.Data.{ToolTurn, Entry}
use grafux_orchestrator.LanguageModel.Attempt.{Action, give, ◌>>=◌}
use grafux_orchestrator.LanguageModel.Provider.{Settings, resolve_provider, strip_code_fences}
use grafux_orchestrator.LanguageModel.Transcript.{Declaration}
use grafux_orchestrator.LanguageModel.Vendors.{Vendors, Process, anthropic_available, route}
use grafux_orchestrator.LanguageModel.Chats.{
  Tuning, openai_chat, anthropic_chat, openai_tools_chat, anthropic_tools_chat,
}

-- The model that the OpenAI branch takes for what `resolve_provider` gave.
abbrev pub openai_model_of : Settings → String × String → String
openai_model_of settings (provider, resolved) =
    if provider == "openai" then resolved else settings.openai_model

module _ {W : Type 0} (vendors : Vendors W) where
  unfoldable pub call_llm_text :
      String → String → Option String → Value → ℕ → Action (Process W) String
  unfolding resolve_provider route openai_chat anthropic_chat
  call_llm_text system_prompt user_message model temperature max_tokens =
      let resolved = resolve_provider vendors.settings model in
      route vendors resolved.0
        (anthropic_chat vendors system_prompt user_message resolved.1 max_tokens false)
        (openai_chat vendors system_prompt user_message (openai_model_of vendors.settings resolved)
          temperature false)

  unfoldable pub call_llm_json :
      String → String → Option String → Value → ℕ → Action (Process W) Value
  unfolding resolve_provider route openai_chat anthropic_chat strip_code_fences ◌>>=◌
  call_llm_json system_prompt user_message model temperature max_tokens =
      let resolved = resolve_provider vendors.settings model in
      route vendors resolved.0
        (do
          raw ← anthropic_chat vendors system_prompt user_message resolved.1 max_tokens true
          give (vendors.loads (or_text (strip_code_fences raw) "{}")))
        (do
          raw ←
              openai_chat vendors system_prompt user_message
                (openai_model_of vendors.settings resolved) temperature true
          give (vendors.loads (or_text raw "{}")))

  unfoldable pub call_llm_tools :
      String → List Entry → List Declaration → Option String → Tuning → Action (Process W) ToolTurn
  unfolding resolve_provider route openai_tools_chat anthropic_tools_chat
  call_llm_tools system messages declarations model tuning =
      let resolved = resolve_provider vendors.settings model in
      route vendors resolved.0
        (anthropic_tools_chat vendors system messages declarations resolved.1 tuning)
        (openai_tools_chat vendors system messages declarations
          (openai_model_of vendors.settings resolved) tuning)

  -- The class and the model that `make_chat_model` chooses.
  unfoldable pub make_chat_model : Option String → Process W → String × String
  unfolding resolve_provider anthropic_available
  make_chat_model model_id s =
      let resolved = resolve_provider vendors.settings model_id in
      if anthropic_available vendors resolved.0 s
      then ("ChatAnthropic", resolved.1)
      else ("ChatOpenAI", openai_model_of vendors.settings resolved)
