-- ===== src/LanguageModel/Provider.antt =====
-- `resolve_provider`, `_strip_code_fences`, `_is_anthropic_auth_failure` and
-- `_supports_adaptive_thinking` of app/core/llm.py.
use grafux_orchestrator.Prelude.{
  ℕ, ◌-◌, String, count, ◌==◌, starts_with, Bool, false, ◌&&◌, ◌||◌, Option, none, some, List, [],
  ◌∷◌, lower, strip, rstrip, prefix, ends_with, has, one_of, ◌=ℕ◌, if◌then◌else◌,
}
use Prim.Native.Char.{code}
use grafux_orchestrator.LanguageModel.Attempt.{Failure}

-- What is read of the settings; a key that is not set is the empty text.
pub record Settings : Type 0 where
  pub openai_model : String
  pub openai_api_key : String
  pub anthropic_api_key : String

-- `s.startswith(prefixes)`
unfoldable pub starts_with_any : String → List String → Bool
starts_with_any s [] = false
starts_with_any s (p ∷ ps) = starts_with s p || starts_with_any s ps

unfoldable pub resolve_provider : Settings → Option String → String × String
unfolding strip lower starts_with_any
resolve_provider settings model_id =
    let m = strip (elim model_id [ none ↦ "" | some id ↦ id ]) in
    if m == ""
    then ("openai", settings.openai_model)
    else if starts_with (lower m) "claude"
    then ("anthropic", m)
    else if starts_with_any (lower m) ("gpt" ∷ "o1" ∷ "o3" ∷ "o4" ∷ "chatgpt" ∷ [])
    then ("openai", m)
    else if starts_with (lower m) "gemini"
    then ("gemini", m)
    else ("openai", settings.openai_model)

-- `t[t.find("\n") + 1:]`, or `t` if it has only one line; the second argument is `t`.
after_line : String → String → String
after_line String.[] t = t
after_line (String.◌∷◌ c s) t = let more = after_line s t in if code c =ℕ 10 then s else more

unfoldable pub opened : String → String
unfolding after_line
opened t = after_line t t

unfoldable pub closed : String → String
unfolding rstrip ends_with prefix
closed t =
    let trimmed = rstrip t in
    if ends_with trimmed "```" then prefix (count trimmed - 3) trimmed else t

-- `_strip_code_fences`
unfoldable pub strip_code_fences : String → String
unfolding strip opened closed
strip_code_fences text =
    let t = strip text in strip (if starts_with t "```" then closed (opened t) else t)

abbrev pub is_auth_status : Option ℕ → Bool
is_auth_status none = false
is_auth_status (some code) = code =ℕ 401 || code =ℕ 403

-- `_is_anthropic_auth_failure`
unfoldable pub is_anthropic_auth_failure : Failure → Bool
unfolding has
is_anthropic_auth_failure e =
    (e.is_value_error && has e.message "ANTHROPIC_API_KEY")
    || is_auth_status e.status_code
    || is_auth_status e.response_status
    || one_of e.class_name ("AuthenticationError" ∷ "PermissionDeniedError" ∷ [])

abbrev pub adaptive_thinking_prefixes : List String
adaptive_thinking_prefixes =
    "claude-fable-5" ∷ "claude-mythos-5" ∷ "claude-opus-5" ∷ "claude-opus-4-8" ∷ "claude-opus-4-7"
    ∷ "claude-opus-4-6" ∷ "claude-sonnet-5" ∷ "claude-sonnet-4-6" ∷ []

unfoldable pub supports_adaptive_thinking : String → Bool
unfolding lower starts_with_any
supports_adaptive_thinking model = starts_with_any (lower model) adaptive_thinking_prefixes
