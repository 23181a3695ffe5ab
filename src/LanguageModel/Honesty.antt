-- ===== src/LanguageModel/Honesty.antt =====
-- The provider and the model that `call_llm_tools` of app/core/llm.py reports.
use grafux_orchestrator.Prelude.{
  String, ◌≡◌, refl, ◌==◌, Option, List, [], ◌∷◌, ◌&&◌, Bool-cases, inl, inr, has,
}
use grafux_orchestrator.BlockAgent.Data.{ToolTurn, Entry}
use grafux_orchestrator.LanguageModel.Attempt.{
  Failure, Attempt, returns, fails, cancels, Action, give, recover, attempt, follow, ◌>>=◌,
}
use grafux_orchestrator.LanguageModel.Provider.{resolve_provider, is_anthropic_auth_failure}
use grafux_orchestrator.LanguageModel.Transcript.{Declaration}
use grafux_orchestrator.LanguageModel.Vendors.{
  Completion, Choice, Message, OpenaiRequest, AnthropicRequest, Request, to_openai, to_anthropic,
  Vendors, Process, ask_openai, ask_anthropic, anthropic_available, no_fallback, fall_back,
  with_anthropic_fallback, route, disable_anthropic,
}
use grafux_orchestrator.LanguageModel.Chats.{
  Tuning, first_choice, openai_request, openai_turn, openai_tools_chat, anthropic_request,
  anthropic_turn, anthropic_tools_chat,
}
use grafux_orchestrator.LanguageModel.Calls.{openai_model_of, call_llm_tools}

-- The turn names the vendor and the model of the newest request.
abbrev pub Names : ToolTurn → List Request → Type 0
Names turn [] = ⊥
Names turn (to_openai q ∷ rest) = (turn.provider ≡ "openai") × (turn.model ≡ q.model)
Names turn (to_anthropic q ∷ rest) = (turn.provider ≡ "anthropic") × (turn.model ≡ q.model)

-- If a turn is returned, it names what was asked last.
abbrev pub IsHonest : {W : Type 0} → Attempt ToolTurn × Process W → Type 0
IsHonest (returns turn, t) = Names turn t.requests
IsHonest (fails e, t) = Unit
IsHonest (cancels, t) = Unit

module _ {W : Type 0} (vendors : Vendors W) where
  chosen :
      (q : OpenaiRequest) (response : Completion) (r : Attempt Choice) (t : Process W)
      (rest : List Request)
      → t.requests ≡ to_openai q ∷ rest
      → IsHonest
          (follow r (λ choice. give (returns (openai_turn vendors q.model response choice))) t)
  unfolding follow openai_turn
  chosen q response (returns choice) t rest h = rw h (refl, refl)
  chosen q response (fails e) t rest h = tt
  chosen q response cancels t rest h = tt

  answered :
      (q : OpenaiRequest) (r : Attempt Completion) (t : Process W) (rest : List Request)
      → t.requests ≡ to_openai q ∷ rest
      → IsHonest (
          follow r
            (λ response. give (first_choice response.choices) >>= λ choice.
              give (returns (openai_turn vendors q.model response choice)))
            t)
  unfolding follow ◌>>=◌
  answered q (returns response) t rest h =
      chosen q response (first_choice response.choices) t rest h
  answered q (fails e) t rest h = tt
  answered q cancels t rest h = tt

  replied :
      (q : AnthropicRequest) (r : Attempt Message) (t : Process W) (rest : List Request)
      → t.requests ≡ to_anthropic q ∷ rest
      → IsHonest (follow r (λ resp. give (returns (anthropic_turn vendors q.model resp))) t)
  unfolding follow anthropic_turn
  replied q (returns resp) t rest h = elim (Bool-cases (resp.stop_reason == "refusal")) [
    | inl e ↦ rw (e, h) (refl, refl)
    | inr e ↦ rw (e, h) (refl, refl)
  ]
  replied q (fails e) t rest h = tt
  replied q cancels t rest h = tt

  openai_tools_chat-IsHonest :
      (system : String) (messages : List Entry) (declarations : List Declaration) (model : String)
      (tuning : Tuning) (s : Process W)
      → IsHonest (openai_tools_chat vendors system messages declarations model tuning s)
  unfolding openai_tools_chat ask_openai ◌>>=◌
  openai_tools_chat-IsHonest system messages declarations model tuning s =
      let q = openai_request vendors system messages declarations model tuning in
      elim (Bool-cases (vendors.settings.openai_api_key == "")) [
        | inl e ↦ rw e tt
        | inr e ↦ rw e (answered q (vendors.openai_create q s.world).0 _ s.requests refl)
      ]

  anthropic_tools_chat-IsHonest :
      (system : String) (messages : List Entry) (declarations : List Declaration) (model : String)
      (tuning : Tuning) (s : Process W)
      → IsHonest (anthropic_tools_chat vendors system messages declarations model tuning s)
  unfolding anthropic_tools_chat ask_anthropic ◌>>=◌
  anthropic_tools_chat-IsHonest system messages declarations model tuning s =
      let q = anthropic_request system messages declarations model tuning in
      elim (Bool-cases (vendors.settings.anthropic_api_key == "")) [
        | inl e ↦ rw e tt
        | inr e ↦ rw e (replied q (vendors.anthropic_create q s.world).0 _ s.requests refl)
      ]

module _ {W : Type 0} where
  recover-IsHonest :
      (r : Attempt ToolTurn) (handler : Failure → Action (Process W) ToolTurn) (t : Process W)
      → IsHonest (r, t)
      → ((e : Failure) → IsHonest (handler e t))
      → IsHonest (recover r handler t)
  unfolding recover
  recover-IsHonest (returns turn) handler t h hh = h
  recover-IsHonest (fails e) handler t h hh = hh e
  recover-IsHonest cancels handler t h hh = tt

module _ {W : Type 0} (vendors : Vendors W) where
  no_fallback-IsHonest :
      (e : Failure) (t : Process W) → IsHonest (no_fallback vendors {A = ToolTurn} e t)
  unfolding no_fallback
  no_fallback-IsHonest e t =
      elim (Bool-cases (e.is_value_error && has e.message "OPENAI_API_KEY")) [
        | inl p ↦ rw p tt
        | inr p ↦ rw p tt
      ]

  module _ (openai : Action (Process W) ToolTurn)
      (sound : (s : Process W) → IsHonest (openai s)) where
    fall_back-IsHonest : (e : Failure) (t : Process W) → IsHonest (fall_back vendors openai e t)
    unfolding fall_back attempt
    fall_back-IsHonest e t = elim (Bool-cases (is_anthropic_auth_failure e)) [
      | inl p ↦ rw p (
          recover-IsHonest (openai (disable_anthropic vendors e.message t)).0 (no_fallback vendors)
            _ (sound (disable_anthropic vendors e.message t)) (λ x. no_fallback-IsHonest x _))
      | inr p ↦ rw p tt
    ]

    route-IsHonest :
        (provider : String) (anthropic : Action (Process W) ToolTurn) (s : Process W)
        → IsHonest (anthropic s)
        → IsHonest (route vendors provider anthropic openai s)
    unfolding route with_anthropic_fallback attempt
    route-IsHonest provider anthropic s h =
        elim (Bool-cases (anthropic_available vendors provider s)) [
          | inl p ↦ rw p (
              recover-IsHonest (anthropic s).0 (fall_back vendors openai) (anthropic s).1 h
                (λ e. fall_back-IsHonest e (anthropic s).1))
          | inr p ↦ rw p (sound s)
        ]

  -- A turn that a step returns names the provider and the model of the last request that was
  -- made, whatever model the step asked for.
  pub call_llm_tools-IsHonest :
      (system : String) (messages : List Entry) (declarations : List Declaration)
      (model : Option String) (tuning : Tuning) (s : Process W)
      → IsHonest (call_llm_tools vendors system messages declarations model tuning s)
  unfolding call_llm_tools
  call_llm_tools-IsHonest system messages declarations model tuning s =
      let (provider, resolved) = resolve_provider vendors.settings model in
      let openai = openai_model_of vendors.settings (provider, resolved) in
      route-IsHonest (openai_tools_chat vendors system messages declarations openai tuning)
        (openai_tools_chat-IsHonest vendors system messages declarations openai tuning) provider
        (anthropic_tools_chat vendors system messages declarations resolved tuning) s
        (anthropic_tools_chat-IsHonest vendors system messages declarations resolved tuning s)
