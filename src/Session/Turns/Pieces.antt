-- ===== src/Session/Turns/Pieces.antt =====
-- How the tool calls of a streamed answer are put together in `_run_text_turn` of
-- app/modules/session/router.py.
use grafux_orchestrator.Prelude.{
  ℕ, ◌<◌, String, ◌<>◌, ◌==◌, ◌≡◌, refl, sym, ap, ◌∙◌, Option, none, some, List, [], ◌∷◌, map, ltb,
  ◌=ℕ◌, ltb→lt, Bool-cases, inl, inr, arith, eq_iff, if◌then◌else◌,
}
use Prim.Native.String.append
use package.text.Mathlib.TextLemmas.{append-nil, append_assoc}
use grafux_orchestrator.Session.Turns.{
  StreamedCall, CallPiece, Slots, grown, blank_call, or_old, add_piece, add_pieces, insert, sorted,
}

-- What the pieces of one index have, in their order.
abbrev pub pieces_at : ℕ → List CallPiece → List StreamedCall
pieces_at i [] = []
pieces_at i (p ∷ ps) = let rest = pieces_at i ps in if i =ℕ p.index then p.call ∷ rest else rest

abbrev pub concat : List String → String
concat [] = ""
concat (x ∷ xs) = x <> concat xs

-- The last of the texts that is not empty; "" if there is none.
abbrev pub last_given : List String → String
last_given [] = ""
last_given (x ∷ xs) = let later = last_given xs in if later == "" then x else later

-- A call of which these are the pieces.
abbrev pub joined : List StreamedCall → StreamedCall
joined pieces = record {
  id = last_given (map (λ c. c.id) pieces);
  name = last_given (map (λ c. c.name) pieces);
  arguments = concat (map (λ c. c.arguments) pieces);
}

abbrev pub joined_any : List StreamedCall → Option StreamedCall
joined_any [] = none
joined_any (c ∷ cs) = some (joined (c ∷ cs))

abbrev pub slot_at : ℕ → Slots → Option StreamedCall
slot_at i [] = none
slot_at i ((j, call) ∷ slots) = let rest = slot_at i slots in if i =ℕ j then some call else rest

-- The indices of the slots grow.
abbrev Below : ℕ → Slots → Type 0
Below i [] = Unit
Below i ((j, call) ∷ slots) = i < j

abbrev pub IsAscending : Slots → Type 0
IsAscending [] = Unit
IsAscending ((i, call) ∷ slots) = Below i slots × IsAscending slots

-- The slots have one call for each index of a piece, in the order of the indices.
pub record IsGathered (pieces : List CallPiece) (slots : Slots) : Type 0 where
  pub ascending : IsAscending slots
  pub found : (i : ℕ) → slot_at i slots ≡ joined_any (pieces_at i pieces)

-- No index stands twice.
abbrev IsDistinct : Slots → Type 0
IsDistinct [] = Unit
IsDistinct ((i, call) ∷ slots) = (slot_at i slots ≡ none) × IsDistinct slots

abbrev or_blank : Option StreamedCall → StreamedCall
or_blank none = blank_call
or_blank (some call) = call

slot_at-add_piece :
    (i j : ℕ) (piece : StreamedCall) (slots : Slots)
    → slot_at i (add_piece j piece slots)
      ≡ (if i =ℕ j then some (grown (or_blank (slot_at i slots)) piece) else slot_at i slots)
unfolding add_piece
slot_at-add_piece i j piece [] = refl
slot_at-add_piece i j piece ((k, call) ∷ slots) = ground (arith, slot_at-add_piece i j piece slots)

add_piece-IsDistinct :
    (j : ℕ) (piece : StreamedCall) (slots : Slots)
    → IsDistinct slots
    → IsDistinct (add_piece j piece slots)
unfolding add_piece
add_piece-IsDistinct j piece [] h = (refl, tt)
add_piece-IsDistinct j piece ((k, call) ∷ slots) (fresh, h) = elim (Bool-cases (j =ℕ k)) [
  | inl e ↦ rw e (fresh, h)
  | inr e ↦ rw e (
    ground (arith, slot_at-add_piece k j piece slots, e, fresh),
    add_piece-IsDistinct j piece slots h,
  )
]

add_pieces-IsDistinct :
    (ps : List CallPiece) (slots : Slots) → IsDistinct slots → IsDistinct (add_pieces ps slots)
unfolding add_pieces
add_pieces-IsDistinct [] slots h = h
add_pieces-IsDistinct (p ∷ ps) slots h =
    add_pieces-IsDistinct ps _ (add_piece-IsDistinct p.index p.call slots h)

-- The pieces of one index grow the call of that index.
grow_all : List StreamedCall → Option StreamedCall → Option StreamedCall
grow_all [] o = o
grow_all (c ∷ cs) o = grow_all cs (some (grown (or_blank o) c))

slot_at-add_pieces :
    (i : ℕ) (ps : List CallPiece) (slots : Slots)
    → slot_at i (add_pieces ps slots) ≡ grow_all (pieces_at i ps) (slot_at i slots)
unfolding add_pieces grow_all
slot_at-add_pieces i [] slots = refl
slot_at-add_pieces i (p ∷ ps) slots =
    slot_at-add_pieces i ps (add_piece p.index p.call slots)
    ∙ ap (grow_all (pieces_at i ps)) (slot_at-add_piece i p.index p.call slots)
    ∙ elim (Bool-cases (i =ℕ p.index)) [ inl e ↦ rw e refl | inr e ↦ rw e refl ]

or_old-last_given :
    (old x : String) (xs : List String)
    → or_old (last_given xs) (or_old x old) ≡ or_old (last_given (x ∷ xs)) old
or_old-last_given old x xs = ground arith

abbrev call_with : String → String → String → StreamedCall
call_with id name arguments = record { id = id; name = name; arguments = arguments }

same_call :
    (i j n m a b : String) → i ≡ j → n ≡ m → a ≡ b → some (call_with i n a) ≡ some (call_with j m b)
same_call i j n m a b p q r = rw (p, q, r) refl

grow_all-some :
    (cs : List StreamedCall) (call : StreamedCall)
    → grow_all cs (some call) ≡ some (grown call (joined cs))
unfolding grow_all
grow_all-some [] call =
    same_call call.id call.id call.name call.name call.arguments _ refl refl
      (sym (append-nil call.arguments))
grow_all-some (c ∷ cs) call =
    grow_all-some cs (grown call c)
    ∙ same_call _ _ _ _ _ _ (or_old-last_given call.id c.id (map (λ d. d.id) cs))
        (or_old-last_given call.name c.name (map (λ d. d.name) cs))
        (append_assoc call.arguments c.arguments (concat (map (λ d. d.arguments) cs)))

slot_at-insert :
    (i : ℕ) (slot : ℕ × StreamedCall) (slots : Slots)
    → slot_at i (insert slot slots) ≡ (if i =ℕ slot.0 then some slot.1 else slot_at i slots)
unfolding insert
slot_at-insert i slot [] = refl
slot_at-insert i (j, call) ((k, other) ∷ slots) = ground (arith, slot_at-insert i (j, call) slots)

slot_at-sorted : (i : ℕ) (slots : Slots) → slot_at i (sorted slots) ≡ slot_at i slots
unfolding sorted
slot_at-sorted i [] = refl
slot_at-sorted i (slot ∷ slots) =
    slot_at-insert i slot (sorted slots)
    ∙ ap (λ rest. if i =ℕ slot.0 then some slot.1 else rest) (slot_at-sorted i slots)

insert-Below :
    (i : ℕ) (slot : ℕ × StreamedCall) (slots : Slots)
    → i < slot.0
    → Below i slots
    → Below i (insert slot slots)
unfolding insert
insert-Below i slot [] h below = h
insert-Below i (j, call) ((k, other) ∷ slots) h below = elim (Bool-cases (ltb k j)) [
  | inl e ↦ rw e below
  | inr e ↦ rw e h
]

insert-IsAscending :
    (slot : ℕ × StreamedCall) (slots : Slots)
    → slot_at slot.0 slots ≡ none
    → IsAscending slots
    → IsAscending (insert slot slots)
unfolding insert
insert-IsAscending slot [] fresh h = (tt, tt)
insert-IsAscending (j, call) ((k, other) ∷ slots) fresh (below, h) = elim (Bool-cases (ltb k j)) [
  | inl e ↦ rw e (
    insert-Below k (j, call) slots (ltb→lt k j e) below,
    insert-IsAscending (j, call) slots (ground (arith, fresh)) h,
  )
  | inr e ↦ rw e (ground (arith, fresh, e), (below, h))
]

sorted-IsAscending : (slots : Slots) → IsDistinct slots → IsAscending (sorted slots)
unfolding sorted
sorted-IsAscending [] h = tt
sorted-IsAscending (slot ∷ slots) (fresh, h) =
    insert-IsAscending slot (sorted slots) (slot_at-sorted slot.0 slots ∙ fresh)
      (sorted-IsAscending slots h)

or_old-blank : (x : String) → or_old x "" ≡ x
or_old-blank x = ground (arith, eq_iff x "")

grow_all-none : (cs : List StreamedCall) → grow_all cs none ≡ joined_any cs
unfolding grow_all
grow_all-none [] = refl
grow_all-none (c ∷ cs) =
    grow_all-some cs (grown blank_call c)
    ∙ same_call _ _ _ _ _ _ (or_old-last_given "" c.id (map (λ d. d.id) cs) ∙ or_old-blank _)
        (or_old-last_given "" c.name (map (λ d. d.name) cs) ∙ or_old-blank _)
        (ap (λ a. a <> concat (map (λ d. d.arguments) cs)) (append.nil c.arguments))

-- However the pieces of the calls come mixed in the stream, a pass has a call for each index
-- that a piece had and for no other, in the order of the indices: its arguments are those of the
-- pieces of the index, one behind the other, its id and name the last that were given.
pub sorted-IsGathered :
    (pieces : List CallPiece) → IsGathered pieces (sorted (add_pieces pieces []))
sorted-IsGathered pieces = record {
  ascending = sorted-IsAscending (add_pieces pieces []) (add_pieces-IsDistinct pieces [] tt);
  found = λ i.
      slot_at-sorted i (add_pieces pieces [])
      ∙ slot_at-add_pieces i pieces []
      ∙ grow_all-none (pieces_at i pieces);
}
