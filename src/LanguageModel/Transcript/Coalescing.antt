-- ===== src/LanguageModel/Transcript/Coalescing.antt =====
-- `_to_anthropic_messages` of app/core/llm.py against what it is to achieve: nothing of the
-- transcript is lost or moved, and the results of one turn go out in one message.
use grafux_orchestrator.Prelude.{
  String, ◌≡◌, refl, sym, ap, ◌∙◌, ◌↔◌, Bool, true, false, List, [], ◌∷◌, ◌++◌, map,
}
use mathlib.Core.List.{append_assoc, append-nil}
use grafux_orchestrator.Python.{Value, truthy}
use grafux_orchestrator.BlockAgent.Data.{ToolCall, Entry, user, assistant, tool, system}
use grafux_orchestrator.LanguageModel.Transcript.{
  ToolResult, tool_result, AnthropicMessage, results, replay, rebuilt, assistant_message, flush,
  convert, to_anthropic_messages,
}
use grafux_orchestrator.Prelude.{Bool-cases, inl, inr}

-- What the provider is told, one piece for each entry of the transcript.
pub data Piece : Type 0 where
  whole : AnthropicMessage → Piece
  result : ToolResult → Piece

abbrev pub piece_of : Entry → Piece
piece_of (user content) = whole (AnthropicMessage.plain "user" content)
piece_of (system content) = whole (AnthropicMessage.plain "system" content)
piece_of (tool id name content is_error) = result (tool_result id content is_error)
piece_of (assistant content calls raw) = whole (assistant_message content calls raw)

abbrev pub told_by : AnthropicMessage → List Piece
told_by (results rs) = map result rs
told_by m = whole m ∷ []

abbrev pub told : List AnthropicMessage → List Piece
told [] = []
told (m ∷ ms) = told_by m ++ told ms

-- No message of results is empty or directly follows another one; the first argument says whether
-- one stands in front.
abbrev pub IsCoalescedAfter : Bool → List AnthropicMessage → Type 0
IsCoalescedAfter before [] = Unit
IsCoalescedAfter before (results [] ∷ ms) = ⊥
IsCoalescedAfter true (results (r ∷ rs) ∷ ms) = ⊥
IsCoalescedAfter false (results (r ∷ rs) ∷ ms) = IsCoalescedAfter true ms
IsCoalescedAfter before (m ∷ ms) = IsCoalescedAfter false ms

abbrev pub IsCoalesced : List AnthropicMessage → Type 0
IsCoalesced ms = IsCoalescedAfter false ms

-- The conversion, read as one of pieces.
group : List ToolResult → List Piece → List AnthropicMessage
group pending [] = flush pending []
group pending (result r ∷ ps) = group (pending ++ r ∷ []) ps
group pending (whole m ∷ ps) = flush pending (m ∷ group [] ps)

convert-group :
    (pending : List ToolResult) (es : List Entry)
    → convert pending es ≡ group pending (map piece_of es)
unfolding convert group
convert-group pending [] = refl
convert-group pending (tool id name content is_error ∷ es) = convert-group _ es
convert-group pending (user content ∷ es) = rw (convert-group [] es) refl
convert-group pending (system content ∷ es) = rw (convert-group [] es) refl
convert-group pending (assistant content calls raw ∷ es) = rw (convert-group [] es) refl

group-results :
    (pending rs : List ToolResult) (ps : List Piece)
    → group pending (map result rs ++ ps) ≡ group (pending ++ rs) ps
unfolding group
group-results pending [] ps = rw append-nil refl
group-results pending (r ∷ rs) ps =
    group-results (pending ++ r ∷ []) rs ps
    ∙ ap (λ q. group q ps) (append_assoc pending (r ∷ []) rs)

after_results : List ToolResult → Bool
after_results [] = false
after_results (r ∷ rs) = true

-- Coalesced messages are the grouping of what they tell.
group-told :
    (pending : List ToolResult) (ms : List AnthropicMessage)
    → IsCoalescedAfter (after_results pending) ms
    → group pending (told ms) ≡ flush pending ms
unfolding group after_results flush
group-told pending [] h = refl
group-told pending (results [] ∷ ms) h = absurd h
group-told [] (results (r ∷ rs) ∷ ms) h =
    group-results [] (r ∷ rs) (told ms) ∙ group-told (r ∷ rs) ms h
group-told (p ∷ ps) (results (r ∷ rs) ∷ ms) h = absurd h
group-told pending (AnthropicMessage.plain role content ∷ ms) h = rw (group-told [] ms h) refl
group-told pending (replay raw ∷ ms) h = rw (group-told [] ms h) refl
group-told pending (rebuilt blocks ∷ ms) h = rw (group-told [] ms h) refl

told-flush :
    (pending : List ToolResult) (ms : List AnthropicMessage)
    → told (flush pending ms) ≡ map result pending ++ told ms
unfolding flush
told-flush [] ms = refl
told-flush (r ∷ rs) ms = refl

-- An assistant's turn goes out as one message that is no message of results.
told_by-assistant_message :
    (content : String) (calls : List ToolCall) (raw : Value)
    → told_by (assistant_message content calls raw)
      ≡ whole (assistant_message content calls raw) ∷ []
unfolding assistant_message
told_by-assistant_message content [] raw = elim (Bool-cases (truthy raw)) [
  | inl e ↦ rw e refl
  | inr e ↦ rw e refl
]
told_by-assistant_message content (call ∷ calls) raw = elim (Bool-cases (truthy raw)) [
  | inl e ↦ rw e refl
  | inr e ↦ rw e refl
]

assistant_message-IsCoalescedAfter :
    (before : Bool) (content : String) (calls : List ToolCall) (raw : Value)
    (ms : List AnthropicMessage)
    → IsCoalesced ms
    → IsCoalescedAfter before (assistant_message content calls raw ∷ ms)
unfolding assistant_message
assistant_message-IsCoalescedAfter before content [] raw ms h = elim (Bool-cases (truthy raw)) [
  | inl e ↦ rw e h
  | inr e ↦ rw e h
]
assistant_message-IsCoalescedAfter before content (call ∷ calls) raw ms h =
    elim (Bool-cases (truthy raw)) [ inl e ↦ rw e h | inr e ↦ rw e h ]

flush-IsCoalesced :
    (pending : List ToolResult) (ms : List AnthropicMessage)
    → ((before : Bool) → IsCoalescedAfter before ms)
    → IsCoalesced (flush pending ms)
unfolding flush
flush-IsCoalesced [] ms h = h false
flush-IsCoalesced (r ∷ rs) ms h = h true

convert-IsCoalesced :
    (pending : List ToolResult) (es : List Entry) → IsCoalesced (convert pending es)
unfolding convert
convert-IsCoalesced pending [] = flush-IsCoalesced pending [] (λ before. tt)
convert-IsCoalesced pending (tool id name content is_error ∷ es) = convert-IsCoalesced _ es
convert-IsCoalesced pending (user content ∷ es) =
    flush-IsCoalesced pending _ (λ before. convert-IsCoalesced [] es)
convert-IsCoalesced pending (system content ∷ es) =
    flush-IsCoalesced pending _ (λ before. convert-IsCoalesced [] es)
convert-IsCoalesced pending (assistant content calls raw ∷ es) =
    flush-IsCoalesced pending _ λ before.
      assistant_message-IsCoalescedAfter before content calls raw _ (convert-IsCoalesced [] es)

map-snoc :
    (pending : List ToolResult) (r : ToolResult) (ps : List Piece)
    → map result (pending ++ r ∷ []) ++ ps ≡ map result pending ++ result r ∷ ps
map-snoc [] r ps = refl
map-snoc (p ∷ pending) r ps = ap (λ q. result p ∷ q) (map-snoc pending r ps)

told-convert :
    (pending : List ToolResult) (es : List Entry)
    → told (convert pending es) ≡ map result pending ++ map piece_of es
unfolding convert
told-convert pending [] = told-flush pending []
told-convert pending (tool id name content is_error ∷ es) =
    told-convert _ es ∙ map-snoc pending (tool_result id content is_error) (map piece_of es)
told-convert pending (user content ∷ es) =
    told-flush pending _
    ∙ ap (λ q. map result pending ++ piece_of (user content) ∷ q) (told-convert [] es)
told-convert pending (system content ∷ es) =
    told-flush pending _
    ∙ ap (λ q. map result pending ++ piece_of (system content) ∷ q) (told-convert [] es)
told-convert pending (assistant content calls raw ∷ es) =
    told-flush pending _ ∙ rw (told_by-assistant_message content calls raw, told-convert [] es) refl

-- The messages for Anthropic are the only ones that tell the transcript's entries in order, each
-- once, with no message of tool results empty or directly behind another.
pub to_anthropic_messages_unique :
    (es : List Entry) (ms : List AnthropicMessage)
    → (to_anthropic_messages es ≡ ms) ↔ ((told ms ≡ map piece_of es) × IsCoalesced ms)
unfolding to_anthropic_messages after_results
to_anthropic_messages_unique es ms = (
  λ e. rw (sym e) (told-convert [] es, convert-IsCoalesced [] es),
  λ (tells, coalesced).
      convert-group [] es ∙ ap (group []) (sym tells) ∙ group-told [] ms coalesced,
)
