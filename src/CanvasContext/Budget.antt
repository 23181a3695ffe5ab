-- ===== src/CanvasContext/Budget.antt =====
-- The budget of `render_canvas_context` in app/modules/session/canvas_context.py.
use grafux_orchestrator.Prelude.{
  ℕ, zero, suc, ◌+◌, ◌≤◌, ◌<◌, max, show, sym, ltb→lt, String, count, ◌<>◌, ◌≡◌, refl, List, [],
  ◌∷◌, ◌++◌, arith, ltb, join, Bool-cases, inl, inr,
}
use grafux_orchestrator.CanvasContext.{
  used_by, fitting, omitted, omission, parts, payload_of, unseen, active_of,
}
use mathlib.Core.Path.{subst}
use mathlib.Core.List.{append-nil}
use grafux_orchestrator.Python.{Fields}
use text.Mathlib.TextLemmas.{length-append as count-append}

count-join :
    (chunk : String) (chunks : List String)
    → count (join "\n\n" (chunk ∷ chunks)) + 2 ≡ used_by (chunk ∷ chunks)
unfolding join used_by
count-join chunk [] = omega arith
count-join chunk (next ∷ chunks) = omega (
  arith,
  count-append chunk ("\n\n" <> join "\n\n" (next ∷ chunks)),
  count-append "\n\n" (join "\n\n" (next ∷ chunks)),
  count-join next chunks,
)

used_by-append : (xs ys : List String) → used_by (xs ++ ys) ≡ used_by xs + used_by ys
unfolding used_by
used_by-append [] ys = omega arith
used_by-append (x ∷ xs) ys = omega (arith, used_by-append xs ys)

-- What is chosen fits: each chunk is taken only where it still goes into the budget.
fitting-used :
    (budget used : ℕ) (chunks : List String)
    → used + used_by (fitting budget used chunks) ≤ max used (budget + 2)
unfolding fitting used_by
fitting-used budget used [] = omega arith
fitting-used budget used (chunk ∷ chunks) = elim (Bool-cases (ltb budget (used + count chunk))) [
  | inl over ↦ rw over (fitting-used budget used chunks)
  | inr fits ↦ rw fits (ground (arith, fitting-used budget (used + (count chunk + 2)) chunks))
]

used_by-nil : used_by [] ≡ 0
unfolding used_by
used_by-nil = refl

-- Bounds on what is used, as bounds on the text.
count-join_le :
    (budget : ℕ) (xs ys : List String)
    → used_by xs ≤ max (used_by ys) (budget + 2)
    → count (join "\n\n" xs) ≤ max (count (join "\n\n" ys)) budget
unfolding join
count-join_le budget [] ys h = omega arith
count-join_le budget (x ∷ xs) [] h = omega (arith, h, used_by-nil, count-join x xs)
count-join_le budget (x ∷ xs) (y ∷ ys) h = omega (arith, h, count-join x xs, count-join y ys)

-- What a list of chunks takes of the budget, with the blank line behind it.
abbrev pub spent : List String → ℕ
spent [] = 0
spent (chunk ∷ chunks) = count (join "\n\n" (chunk ∷ chunks)) + 2

-- With so much used already, the chunks that are chosen of a list, in its order, and the number of
-- the others: a chunk is chosen just if it still goes into the budget behind those before it.
pub data IsChosen (budget : ℕ) : ℕ → List String → List String → ℕ → Type 0 where
  no_chunks : (used : ℕ) → IsChosen budget used [] [] 0
  taken :
      (used left : ℕ) (chunk : String) (chunks chosen : List String)
      → used + count chunk ≤ budget
      → IsChosen budget (used + (count chunk + 2)) chunks chosen left
      → IsChosen budget used (chunk ∷ chunks) (chunk ∷ chosen) left
  left_out :
      (used left : ℕ) (chunk : String) (chunks chosen : List String)
      → budget < used + count chunk
      → IsChosen budget used chunks chosen left
      → IsChosen budget used (chunk ∷ chunks) chosen (suc left)

-- A last part says how many blocks were left out, if any were.
abbrev pub HasNote : ℕ → List String → Type 0
HasNote zero [] = Unit
HasNote (suc n) (line ∷ []) = (rest : String) × (line ≡ "…(" <> (show (suc n) <> rest))
HasNote n note = ⊥

-- The parts are the active chunks, all of them, then those that are chosen of the others, then the
-- note; and the text before the note is in the budget, or no longer than the active blocks alone.
pub record IsBudgeted (budget : ℕ) (active others parts : List String) : Type 0 where
  pub chosen : List String
  pub left : ℕ
  pub note : List String
  pub whole : parts ≡ active ++ (chosen ++ note)
  pub selection : IsChosen budget (spent active) others chosen left
  pub counted : HasNote left note
  pub within : count (join "\n\n" (active ++ chosen)) ≤ max (count (join "\n\n" active)) budget

fitting-IsChosen :
    (budget used : ℕ) (chunks : List String)
    → IsChosen budget used chunks (fitting budget used chunks) (omitted budget used chunks)
unfolding fitting omitted
fitting-IsChosen budget used [] = no_chunks used
fitting-IsChosen budget used (chunk ∷ chunks) =
    elim (Bool-cases (ltb budget (used + count chunk))) [
      | inl over ↦ rw over (
          left_out used _ chunk chunks _ (ltb→lt budget (used + count chunk) over)
            (fitting-IsChosen budget used chunks))
      | inr fits ↦ rw fits (
          taken used _ chunk chunks _ (ground (arith, fits))
            (fitting-IsChosen budget (used + (count chunk + 2)) chunks))
    ]

used_by-spent : (chunks : List String) → used_by chunks ≡ spent chunks
used_by-spent [] = used_by-nil
used_by-spent (chunk ∷ chunks) = sym (count-join chunk chunks)

omission-HasNote : (n : ℕ) → HasNote n (omission n)
unfolding omission
omission-HasNote zero = tt
omission-HasNote (suc n) = (_, refl)

-- The parts are the active blocks, all of them, then those of the other blocks, in order, that still
-- go into the budget behind what stands before them, then a note with the number of the blocks that
-- were left out, if there are any. Without the note, the text is no longer than the budget, or than
-- the text of the active blocks alone where that is longer.
pub parts-IsBudgeted :
    (budget : ℕ) (active others : List String)
    → IsBudgeted budget active others (parts budget active others)
unfolding parts
parts-IsBudgeted budget active others =
    let used = used_by active in
    let chosen = fitting budget used others in
    record {
      chosen = chosen;
      left = omitted budget used others;
      note = omission (omitted budget used others);
      whole = refl;
      selection =
          subst (λ u. IsChosen budget u others chosen (omitted budget used others))
            (used_by-spent active) (fitting-IsChosen budget used others);
      counted = omission-HasNote (omitted budget used others);
      within =
          count-join_le budget (active ++ chosen) active
            (rw (used_by-append active chosen) (fitting-used budget used others));
    }

unseen-seen : (active blocks : List Fields) → unseen active active blocks ≡ []
unfolding unseen
unseen-seen active [] = refl
unseen-seen active (b ∷ bs) = ground (arith, unseen-seen active bs)

-- The canvas adds no active block to those of the payload.
active_of-payload_of :
    (blocks active_blocks : List Fields) → active_of blocks active_blocks ≡ payload_of active_blocks
unfolding active_of
active_of-payload_of blocks active_blocks =
    rw (unseen-seen (payload_of active_blocks) blocks, append-nil) refl
