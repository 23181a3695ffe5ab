-- ===== src/LanguageModel/RoundTrip.antt =====
-- A turn of OpenAI that goes into the transcript and back to OpenAI, in app/core/llm.py.
use grafux_orchestrator.Prelude.{
  ℕ, suc, String, ◌<>◌, ◌≡◌, refl, ◌==◌, false, Option, some, List, [], ◌∷◌, All, map, show,
  Bool-cases, inl, inr, append_not_blank, eq_iff,
}
use grafux_orchestrator.Python.{obj, or_text}
use grafux_orchestrator.BlockAgent.Data.{ToolCall, assistant}
use grafux_orchestrator.LanguageModel.Attempt.{returns}
use grafux_orchestrator.LanguageModel.Transcript.{
  WireCall, OpenaiMessage, answer, request, wire_call, or_none, openai_message,
}
use grafux_orchestrator.LanguageModel.Vendors.{RawCall, Choice, Completion, Vendors}
use grafux_orchestrator.LanguageModel.Chats.{or_blank, loads_args, read_calls, openai_turn}

-- `json.dumps` writes the arguments of the call as a text that is not empty, and `json.loads` reads
-- them back from it.
pub record ReadsBack {W : Type 0} (vendors : Vendors W) (call : ToolCall) : Type 0 where
  pub shown : String
  pub same : vendors.loads (vendors.dumps call.arguments) ≡ returns (obj shown call.arguments)
  pub written : (vendors.dumps call.arguments == "") ≡ false

-- A message of the transcript, read as if it were an answer.
abbrev pub echoed : WireCall → RawCall
echoed c = record { id = some c.id; name = c.name; arguments = c.arguments }

abbrev pub as_answer : OpenaiMessage → Choice
as_answer (OpenaiMessage.plain role content) = record { content = some content; tool_calls = [] }
as_answer (answer id content) = record { content = some content; tool_calls = [] }
as_answer (request content calls) = record { content = content; tool_calls = map echoed calls }

or_blank-or_none : (s : String) → or_blank (or_none s) ≡ s
or_blank-or_none s = elim (Bool-cases (s == "")) [
  | inl e ↦ rw ((eq_iff s "").0 e) refl
  | inr e ↦ rw e refl
]

or_text-ne_blank : (s t : String) → (t == "") ≡ false → (or_text s t == "") ≡ false
or_text-ne_blank s t h = elim (Bool-cases (s == "")) [ inl e ↦ rw e h | inr e ↦ rw e e ]

module _ {W : Type 0} (vendors : Vendors W) where
  loads_args-dumps :
      (call : ToolCall)
      → ReadsBack vendors call
      → loads_args vendors (vendors.dumps call.arguments) ≡ call.arguments
  unfolding loads_args
  loads_args-dumps call law = rw (law.written, law.same) refl

  read_calls-echoed :
      (i j : ℕ) (raws : List RawCall)
      → All (ReadsBack vendors) (read_calls vendors i raws)
      → read_calls vendors j
          (map echoed (map (wire_call vendors.dumps) (read_calls vendors i raws)))
        ≡ read_calls vendors i raws
  unfolding read_calls
  read_calls-echoed i j [] laws = refl
  read_calls-echoed i j (c ∷ cs) laws =
      rw
        (
          or_text-ne_blank (or_blank c.id) ("call_" <> show i)
              (append_not_blank "call_" (show i) refl),
          loads_args-dumps _ laws.0,
          read_calls-echoed (suc i) (suc j) cs laws.1,
        )
        refl

  again :
      (model : String) (response : Completion) (content : Option String) (raws : List RawCall)
      → All (ReadsBack vendors) (read_calls vendors 0 raws)
      → let turn =
          openai_turn vendors model response (record { content = content; tool_calls = raws }) in
        openai_turn vendors model response (
          as_answer
            (openai_message vendors.dumps (assistant turn.text turn.tool_calls turn.raw_content)))
        ≡ turn
  unfolding openai_turn read_calls
  again model response content [] laws = refl
  again model response content (c ∷ cs) laws =
      rw (or_blank-or_none (or_blank content), read_calls-echoed 0 0 (c ∷ cs) laws) refl

  -- Where JSON reads the arguments of its calls back, a turn that OpenAI answered, put into the transcript and sent to OpenAI
  -- again, is read as the same turn: the text, and the calls with their ids, names and arguments.
  pub openai_turn-openai_message :
      (model : String) (response : Completion) (choice : Choice)
      → All (ReadsBack vendors) (read_calls vendors 0 choice.tool_calls)
      → let turn = openai_turn vendors model response choice in
        openai_turn vendors model response (
          as_answer
            (openai_message vendors.dumps (assistant turn.text turn.tool_calls turn.raw_content)))
        ≡ turn
  openai_turn-openai_message model response choice laws =
      again model response choice.content choice.tool_calls laws
