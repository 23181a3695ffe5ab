-- ===== src/LanguageModel/Latch.antt =====
-- The latch of app/core/llm.py: what a rejected Anthropic key, and any other failure, lead to.
use grafux_orchestrator.Prelude.{
  ℕ, ◌+◌, ◌<◌, String, ◌≡◌, refl, sym, ◌∙◌, ◌==◌, true, false, Option, List, [], ◌∷◌, ◌++◌, All,
  arith, ltb, Bool-cases, inl, inr, ◌&&◌, has,
}
use mathlib.Core.Path.{subst}
use mathlib.Core.Bool.{false≢true}
use grafux_orchestrator.BlockAgent.Data.{ToolTurn, Entry}
use grafux_orchestrator.LanguageModel.Attempt.{
  Failure, returns, fails, Action, attempt, Keeps, Keeps-attempt, keeps_rules, attempt-fails,
  bind-give,
}
use grafux_orchestrator.LanguageModel.Provider.{resolve_provider, is_anthropic_auth_failure}
use grafux_orchestrator.LanguageModel.Transcript.{Declaration}
use grafux_orchestrator.LanguageModel.Vendors.{
  OpenaiRequest, AnthropicRequest, Request, to_openai, to_anthropic, Vendors, Process,
  anthropic_auth_cooldown, ask_openai, ask_anthropic, disable_anthropic, anthropic_available,
  no_fallback, fall_back, with_anthropic_fallback, route,
}
use grafux_orchestrator.LanguageModel.Chats.{
  Tuning, anthropic_request, anthropic_turn, openai_tools_chat, anthropic_tools_chat,
}
use grafux_orchestrator.LanguageModel.Calls.{openai_model_of, call_llm_tools}

abbrev pub IsToOpenai : Request → Type 0
IsToOpenai (to_openai request) = Unit
IsToOpenai (to_anthropic request) = ⊥

-- Since `base` only OpenAI was asked, and the latch is at `until`.
pub record Avoids {W : Type 0} (base : List Request) (until : ℕ) (s : Process W) : Type 0 where
  pub news : List Request
  pub since : s.requests ≡ news ++ base
  pub only : All IsToOpenai news
  pub latched : s.disabled_until ≡ until

-- One step of an agent: the arguments of `call_llm_tools`.
pub record Step : Type 0 where
  pub system : String
  pub messages : List Entry
  pub declarations : List Declaration
  pub model : Option String
  pub tuning : Tuning

module _ {W : Type 0} (vendors : Vendors W) where
  abbrev pub take_step : Step → Process W → Process W
  take_step c s = (call_llm_tools vendors c.system c.messages c.declarations c.model c.tuning s).1

  abbrev pub take_steps : List Step → Process W → Process W
  take_steps [] s = s
  take_steps (c ∷ cs) s = take_steps cs (take_step c s)

  -- Each of the steps begins before the time `until`.
  abbrev pub StartBefore : ℕ → List Step → Process W → Type 0
  StartBefore until [] s = Unit
  StartBefore until (c ∷ cs) s =
      (vendors.monotonic s.world < until) × StartBefore until cs (take_step c s)

  -- The Anthropic branch of a step, and the OpenAI branch.
  abbrev pub anthropic_branch : Step → Action (Process W) ToolTurn
  anthropic_branch c =
      anthropic_tools_chat vendors c.system c.messages c.declarations
        (resolve_provider vendors.settings c.model).1 c.tuning

  abbrev pub openai_branch : Step → Action (Process W) ToolTurn
  openai_branch c =
      openai_tools_chat vendors c.system c.messages c.declarations
        (openai_model_of vendors.settings (resolve_provider vendors.settings c.model)) c.tuning

  module _ (base : List Request) (until : ℕ) where
    asked :
        (request : OpenaiRequest) (s : Process W)
        → Avoids base until s
        → Avoids base until (ask_openai vendors request s).1
    unfolding ask_openai
    asked request s h = elim (Bool-cases (vendors.settings.openai_api_key == "")) [
      | inl e ↦ rw e h
      | inr e ↦ rw e (record {
        news = to_openai request ∷ h.news;
        since = rw h.since refl;
        only = (tt, h.only);
        latched = h.latched;
      })
    ]

    ask_openai-Keeps :
        (request : OpenaiRequest) → Keeps (Avoids base until) (ask_openai vendors request)
    ask_openai-Keeps request = record { at = asked request }

    openai_branch-Keeps : (c : Step) → Keeps (Avoids base until) (openai_branch c)
    unfolding openai_tools_chat
    openai_branch-Keeps c = search (keeps_rules, ask_openai-Keeps)

    no_fallback-Keeps :
        (e : Failure) → Keeps (Avoids base until) (no_fallback vendors {A = ToolTurn} e)
    unfolding no_fallback
    no_fallback-Keeps e = elim (Bool-cases (e.is_value_error && has e.message "OPENAI_API_KEY")) [
      | inl p ↦ rw p (search keeps_rules)
      | inr p ↦ rw p (search keeps_rules)
    ]

  latched-route :
      (provider : String) (a o : Action (Process W) ToolTurn) (s : Process W)
      → vendors.monotonic s.world < s.disabled_until
      → route vendors provider a o s ≡ o s
  unfolding route
  latched-route provider a o s h =
      let shut : ltb (vendors.monotonic s.world) s.disabled_until ≡ true = ground arith in
      elim (Bool-cases (provider == "anthropic")) [
        | inl p ↦ elim (Bool-cases (vendors.settings.anthropic_api_key == "")) [
          | inl q ↦ rw (p, q) refl
          | inr q ↦ rw (p, q, shut) refl
        ]
        | inr p ↦ rw p refl
      ]

  latched-take_step :
      (base : List Request) (until : ℕ) (c : Step) (s : Process W)
      → vendors.monotonic s.world < until
      → Avoids base until s
      → Avoids base until (take_step c s)
  unfolding call_llm_tools
  latched-take_step base until c s early h =
      subst (λ r. Avoids base until r.1)
        (sym (
          latched-route (resolve_provider vendors.settings c.model).0 (anthropic_branch c)
            (openai_branch c) s (rw h.latched early)))
        ((openai_branch-Keeps base until c).at s h)

  latched-take_steps :
      (base : List Request) (until : ℕ) (cs : List Step) (s : Process W)
      → StartBefore until cs s
      → Avoids base until s
      → Avoids base until (take_steps cs s)
  latched-take_steps base until [] s early h = h
  latched-take_steps base until (c ∷ cs) s early h =
      latched-take_steps base until cs (take_step c s) early.1
        (latched-take_step base until c s early.0 h)

  pub open-route :
      {A : Type 0} (provider : String) (a o : Action (Process W) A) (s : Process W) (e : Failure)
      → anthropic_available vendors provider s ≡ true
      → (a s).0 ≡ fails e
      → route vendors provider a o s ≡ fall_back vendors o e (a s).1
  unfolding route with_anthropic_fallback
  open-route provider a o s e ready failed =
      rw ready (attempt-fails a (fall_back vendors o) s e failed)

  shut-fall_back :
      {A : Type 0} (o : Action (Process W) A) (e : Failure) (s : Process W)
      → is_anthropic_auth_failure e ≡ true
      → fall_back vendors o e s
        ≡ attempt o (no_fallback vendors) (disable_anthropic vendors e.message s)
  unfolding fall_back
  shut-fall_back o e s auth = rw auth refl

  raised-fall_back :
      {A : Type 0} (o : Action (Process W) A) (e : Failure) (s : Process W)
      → is_anthropic_auth_failure e ≡ false
      → fall_back vendors o e s ≡ (fails e, s)
  unfolding fall_back
  raised-fall_back o e s other = rw other refl

  -- A step whose Anthropic branch was refused for its key leaves the latch 15 minutes ahead.
  refused-Avoids :
      (c : Step) (s : Process W) (e : Failure)
      → anthropic_available vendors (resolve_provider vendors.settings c.model).0 s ≡ true
      → (anthropic_branch c s).0 ≡ fails e
      → is_anthropic_auth_failure e ≡ true
      → let tried = (anthropic_branch c s).1 in
        Avoids tried.requests
          (vendors.monotonic tried.world + anthropic_auth_cooldown)
          (take_step c s)
  unfolding call_llm_tools disable_anthropic
  refused-Avoids c s e ready refused auth =
      let tried = (anthropic_branch c s).1 in
      let until = vendors.monotonic tried.world + anthropic_auth_cooldown in
      subst (λ r. Avoids tried.requests until r.1)
        (sym (
          open-route (resolve_provider vendors.settings c.model).0 (anthropic_branch c)
            (openai_branch c) s e ready refused
          ∙ shut-fall_back (openai_branch c) e tried auth))
        ((Keeps-attempt (openai_branch c) (no_fallback vendors)
            (openai_branch-Keeps tried.requests until c)
            (no_fallback-Keeps tried.requests until)).at
          (disable_anthropic vendors e.message tried)
          (record { news = []; since = refl; only = tt; latched = refl }))

  -- If the Anthropic branch of a step is refused for its key, no later step that begins within
  -- 15 minutes of the refusal asks Anthropic, whatever model it names; nor does the rest of the
  -- step itself, and the latch stays where it is.
  pub refused_steps-Avoids :
      (c : Step) (cs : List Step) (s : Process W) (e : Failure)
      → anthropic_available vendors (resolve_provider vendors.settings c.model).0 s ≡ true
      → (anthropic_branch c s).0 ≡ fails e
      → is_anthropic_auth_failure e ≡ true
      → StartBefore
          (vendors.monotonic (anthropic_branch c s).1.world + anthropic_auth_cooldown)
          cs
          (take_step c s)
      → Avoids
          (anthropic_branch c s).1.requests
          (vendors.monotonic (anthropic_branch c s).1.world + anthropic_auth_cooldown)
          (take_steps (c ∷ cs) s)
  refused_steps-Avoids c cs s e ready refused auth early =
      latched-take_steps _ _ cs (take_step c s) early (refused-Avoids c s e ready refused auth)

  keyed :
      (provider : String) (s : Process W)
      → anthropic_available vendors provider s ≡ true
      → (vendors.settings.anthropic_api_key == "") ≡ false
  unfolding anthropic_available
  keyed provider s ready = elim (Bool-cases (vendors.settings.anthropic_api_key == "")) [
    | inl q ↦ elim (Bool-cases (provider == "anthropic")) [
      | inl p ↦ absurd (false≢true (rw (p, q) at ready))
      | inr p ↦ absurd (false≢true (rw p at ready))
    ]
    | inr q ↦ q
  ]

  -- One request to Anthropic went out, and the latch is as it was.
  Asked : Process W → Process W → Type 0
  Asked s t =
      ((request : AnthropicRequest) × (t.requests ≡ to_anthropic request ∷ s.requests))
      × (t.disabled_until ≡ s.disabled_until)

  ask_anthropic-Asked :
      (request : AnthropicRequest) (s : Process W)
      → (vendors.settings.anthropic_api_key == "") ≡ false
      → Asked s (ask_anthropic vendors request s).1
  unfolding ask_anthropic Asked
  ask_anthropic-Asked request s key = rw key ((request, refl), refl)

  anthropic_branch-Asked :
      (c : Step) (s : Process W)
      → (vendors.settings.anthropic_api_key == "") ≡ false
      → Asked s (anthropic_branch c s).1
  unfolding anthropic_tools_chat
  anthropic_branch-Asked c s key =
      let (provider, model) = resolve_provider vendors.settings c.model in
      let request = anthropic_request c.system c.messages c.declarations model c.tuning in
      subst (Asked s)
        (sym (
          bind-give (ask_anthropic vendors request)
            (λ resp. returns (anthropic_turn vendors model resp)) s))
        (ask_anthropic-Asked request s key)

  -- A failure of Anthropic that is not about the key ends the step: it is raised as it came, OpenAI
  -- is not asked in its place, and the latch stays as it was.
  pub transient-raised :
      (c : Step) (s : Process W) (e : Failure)
      → anthropic_available vendors (resolve_provider vendors.settings c.model).0 s ≡ true
      → (anthropic_branch c s).0 ≡ fails e
      → is_anthropic_auth_failure e ≡ false
      → let (r, t) = call_llm_tools vendors c.system c.messages c.declarations c.model c.tuning s in
        (r ≡ fails e)
        × ((request : AnthropicRequest) × (t.requests ≡ to_anthropic request ∷ s.requests))
        × (t.disabled_until ≡ s.disabled_until)
  unfolding call_llm_tools Asked
  transient-raised c s e ready failed other =
      let whole =
        open-route (resolve_provider vendors.settings c.model).0 (anthropic_branch c)
          (openai_branch c) s e ready failed
        ∙ raised-fall_back (openai_branch c) e (anthropic_branch c s).1 other in
      let asked = anthropic_branch-Asked c s (keyed _ s ready) in
      subst
        (λ r.
          (r.0 ≡ fails e)
          × ((request : AnthropicRequest) × (r.1.requests ≡ to_anthropic request ∷ s.requests))
          × (r.1.disabled_until ≡ s.disabled_until))
        (sym whole) (refl, asked.0, asked.1)
