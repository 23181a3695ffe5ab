-- ===== src/Session/Turns/Pairing.antt =====
-- The prompts of a text turn of app/modules/session/router.py: how many there are, and how each
-- continues the one before.
use grafux_orchestrator.Prelude.{ℕ, suc, ◌≤◌, String, ◌≡◌, List, [], ◌∷◌, ◌++◌}
use grafux_orchestrator.Exec.{Exec}
use grafux_orchestrator.Session.Turns.{StreamedCall, Prompt, called, result, Chat, Services}

-- The messages are the results of the calls, in order.
abbrev pub AreAnswered : List StreamedCall → List Prompt → Type 0
AreAnswered [] [] = Unit
AreAnswered (call ∷ calls) (result id value ∷ messages) =
    (id ≡ call.id) × AreAnswered calls messages
AreAnswered calls messages = ⊥

-- `n` prompts, the newest first: the first one is `opening`, and each later one
-- is the one before, with the calls of the model and their results.
pub data IsExchange (opening : List Prompt) : ℕ → List (List Prompt) → Type 0 where
  unasked : IsExchange opening 0 []
  opened : IsExchange opening 1 (opening ∷ [])
  answered :
      (n : ℕ) (last : List Prompt) (earlier : List (List Prompt)) (segment_text : String)
      (call : StreamedCall) (calls : List StreamedCall) (results : List Prompt)
      → IsExchange opening n (last ∷ earlier)
      → AreAnswered (call ∷ calls) results
      → IsExchange opening
          (suc n)
          ((last ++ called segment_text (call ∷ calls) ∷ results) ∷ last ∷ earlier)

-- At most four prompts, behind those of earlier turns.
pub record IsBrief (opening : List Prompt) (before prompts : List (List Prompt)) : Type 0 where
  pub number : ℕ
  pub few : number ≤ 4
  pub asked : List (List Prompt)
  pub kept : prompts ≡ asked ++ before
  pub exchange : IsExchange opening number asked

-- A message that is the result of the call.
abbrev Answers : StreamedCall → Prompt → Type 0
Answers call (result id value) = id ≡ call.id
Answers call m = ⊥

HasHead : {A : Type 0} → List A → Type 0
HasHead [] = ⊥
HasHead (x ∷ xs) = Unit

module _ {W : Type 0} (services : Services W) (opening : List Prompt)
    (before : List (List Prompt)) where
  -- `n` prompts were made in the turn, and `messages` is to be the next one.
  record Ready (n : ℕ) (messages : List Prompt) (prompts : List (List Prompt)) : Type 0 where
    asked : List (List Prompt)
    kept : prompts ≡ asked ++ before
    exchange : IsExchange opening n asked
    next : IsExchange opening (suc n) (messages ∷ asked)

  -- `messages` was the last of `n + 1` prompts.
  record Posed (n : ℕ) (messages : List Prompt) (prompts : List (List Prompt)) : Type 0 where
    asked : List (List Prompt)
    kept : prompts ≡ messages ∷ (asked ++ before)
    exchange : IsExchange opening (suc n) (messages ∷ asked)

  abbrev Brief : Chat W → Type 0
  Brief s = IsBrief opening before s.prompts

  abbrev PosedIn : ℕ → List Prompt → Chat W → Type 0
  PosedIn n messages s = Posed n messages s.prompts
