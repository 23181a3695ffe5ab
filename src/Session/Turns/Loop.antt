-- ===== src/Session/Turns/Loop.antt =====
-- `_run_text_turn` of app/modules/session/router.py as actions over the session's `Chat`: the
-- stream, the answers to the tool calls, the loop of four passes, and what the turn ends with.
use grafux_orchestrator.Prelude.{
  ℕ, zero, suc, String, ◌<>◌, ◌==◌, Bool, false, not, ◌||◌, Option, none, some, List, [], ◌∷◌, ◌++◌,
  map, replace, if◌then◌else◌,
}
use grafux_orchestrator.Python.{
  Value, text, arr, obj, Items, nil, cons, Fields, type_name, Outcome, ok, raised,
}
use grafux_orchestrator.Exec.{Exec, reads, pure, lift, gets, modify, skip, try_except, ◌>>=◌, ◌>>◌}
use grafux_orchestrator.CanvasContext.{build_diagram_context, parse_actions_tag}
use grafux_orchestrator.Session.Port.{
  Read, unaddressed, read_of, read_of_call, no_address, port_request, read_answer,
}
use grafux_orchestrator.Session.Turns.{
  StreamedCall, Said, by_user, by_assistant, Prompt, system, said, called, result, StreamChoice,
  Sent, text_chunk, error_message, turn_complete, Chat, Services, is_enrichable, is_creation, stamp,
  assistant_tool_calls, Heard, nothing_heard, heard, has_calls, read_args, append_entry, history_of,
}

module _ {W : Type 0} where
  -- `_send`, which raises nothing.
  unfoldable pub send : Sent → Exec (Chat W) (Unit {0})
  unfolding modify
  send message = modify (λ s. record s { sent = message ∷ s.sent })

  unfoldable pub append_history : String → Said → Exec (Chat W) (Unit {0})
  unfolding modify append_entry
  append_history id entry = modify (λ s. record s { histories = append_entry id entry s.histories })

  -- What the world answers, with the world then.
  unfoldable pub ask_world : {A : Type 0} → (W → Outcome A × W) → Exec (Chat W) A
  ask_world f s = let (r, w) = f s.world in (r, record s { world = w })

  -- A chunk of the stream
  unfoldable pub hear : Option StreamChoice → Heard → Exec (Chat W) Heard
  unfolding send heard reads ◌>>=◌
  hear none h = pure h
  hear (some choice) h =
      (if choice.content == "" then skip else send (text_chunk choice.content))
      >> pure (heard choice h)

  unfoldable pub listen : List (Option StreamChoice) → Heard → Exec (Chat W) Heard
  unfolding hear reads ◌>>=◌
  listen [] h = pure h
  listen (chunk ∷ chunks) h = hear chunk h >>= listen chunks

module _ {W : Type 0} (services : Services W) where
  -- `client.chat.completions.create`, and what its stream will give
  unfoldable pub create :
      List Prompt → Exec (Chat W) (List (Option StreamChoice) × Outcome (Unit {0}))
  create messages s =
      let (answer, w) = services.stream messages s.world in
      (ok answer, record s { prompts = messages ∷ s.prompts; world = w })

  unfoldable pub read_segment : List Prompt → String → Exec (Chat W) Heard
  unfolding create listen reads ◌>>=◌
  read_segment messages full_text = create messages >>= λ answer.
      listen answer.0 (nothing_heard full_text) >>= λ h. lift answer.1 >> pure h

  unfoldable pub ask_client : Read → Exec (Chat W) Value
  unfolding reads ask_world read_answer ◌>>=◌ port_request
  ask_client unaddressed = pure (text no_address)
  ask_client (read_of target_block direction port_name) =
      ask_world (services.reply (port_request target_block direction port_name)) >>= λ reply.
      pure (read_answer target_block direction port_name reply)

  -- `_resolve_read_tool`
  unfoldable pub resolve_read_tool : Fields → Exec (Chat W) Value
  unfolding ask_client read_of_call
  resolve_read_tool args s = ask_client (read_of_call s.active_blocks args) s

  unfoldable pub answer_call : StreamedCall → Exec (Chat W) Prompt
  unfolding reads read_args resolve_read_tool ◌>>=◌
  answer_call call = lift (read_args (services.loads call.arguments)) >>= λ args.
      resolve_read_tool args >>= λ result_text. pure (result call.id result_text)

  unfoldable pub answer_calls : List StreamedCall → Exec (Chat W) (List Prompt)
  unfolding reads answer_call ◌>>=◌
  answer_calls [] = pure []
  answer_calls (call ∷ calls) =
      answer_call call >>= λ message. answer_calls calls >>= λ messages. pure (message ∷ messages)

  -- The rest of a pass, with the passes that may follow.
  unfoldable pub go_on :
      List Prompt → Heard → (List Prompt → Exec (Chat W) String) → Exec (Chat W) String
  unfolding reads answer_calls assistant_tool_calls ◌>>=◌
  go_on messages h more =
      if not (h.finish_reason == "tool_calls") || not (has_calls h.tool_calls)
      then pure h.full_text
      else answer_calls (assistant_tool_calls h.tool_calls) >>= λ results.
          more (messages ++ called h.segment_text (assistant_tool_calls h.tool_calls) ∷ results)

  -- `for _iteration in range(n)`: the full text after it
  unfoldable pub passes : ℕ → List Prompt → String → Exec (Chat W) String
  unfolding reads read_segment go_on ◌>>=◌
  passes zero messages full_text = pure full_text
  passes (suc n) messages full_text = read_segment messages full_text >>= λ h.
      go_on messages h (λ longer. passes n longer h.full_text)

  -- `_stamp_actions`, for one action
  unfoldable pub stamp_action : Value → Exec (Chat W) Value
  unfolding is_creation stamp
  stamp_action action s =
      let (id, w) = services.new_id s.world in
      if is_creation action then (ok (stamp id action), record s { world = w }) else (ok action, s)

  unfoldable pub stamp_items : Items → Exec (Chat W) Items
  unfolding reads stamp_action ◌>>=◌
  stamp_items nil = pure nil
  stamp_items (cons v vs) =
      stamp_action v >>= λ stamped. stamp_items vs >>= λ rest. pure (cons stamped rest)

  -- `_stamp_actions`: a text and a dictionary are run through and have no dictionaries in them;
  -- other values are no sequences.
  unfoldable pub stamp_actions : Value → Exec (Chat W) Value
  unfolding reads stamp_items ◌>>=◌
  stamp_actions (arr shown vs) = stamp_items vs >>= λ stamped. pure (arr shown stamped)
  stamp_actions (text s) = pure (text s)
  stamp_actions (obj shown fs) = pure (obj shown fs)
  stamp_actions v = lift (raised ("'" <> (type_name v <> "' object is not iterable")))

-- `any(is_enrichable(a) for a in actions)`
unfoldable pub any_enrichable : Items → Bool
unfolding is_enrichable
any_enrichable nil = false
any_enrichable (cons v vs) = is_enrichable v || any_enrichable vs

abbrev pub items_of : Value → Items
items_of (arr shown vs) = vs
items_of v = nil

module _ {W : Type 0} where
  -- `_spawn_enrichment`
  unfoldable pub spawn_enrichment : Value → Exec (Chat W) (Unit {0})
  unfolding modify any_enrichable reads
  spawn_enrichment actions =
      if any_enrichable (items_of actions)
      then modify (λ s. record s { enriching = actions ∷ s.enriching })
      else skip

module _ {W : Type 0} (services : Services W) where
  -- The turn after the tool loop
  unfoldable pub complete_turn : String → String → Exec (Chat W) (Unit {0})
  unfolding parse_actions_tag stamp_actions append_history send spawn_enrichment ◌>>=◌
  complete_turn conversation_id full_text =
      let (display_text, parsed) = parse_actions_tag services.loads full_text in
      stamp_actions services parsed >>= λ actions.
      append_history conversation_id (by_assistant display_text)
      >> (send (turn_complete display_text actions) >> spawn_enrichment actions)

  abbrev pub first_messages : String → List Said → List Prompt
  first_messages context history =
      system (replace services.raw_prompt "{DIAGRAM_CONTEXT}" context) ∷ map said history

  -- The turn's `try`
  unfoldable pub converse : String → List Prompt → Exec (Chat W) (Unit {0})
  unfolding passes complete_turn send try_except ◌>>=◌
  converse conversation_id messages =
      try_except (passes services 4 messages "" >>= complete_turn conversation_id)
        (λ e. send (error_message e))

  -- `self._build_diagram_context(empty="No diagram loaded yet.")`
  unfoldable pub turn_context : Exec (Chat W) String
  unfolding build_diagram_context
  turn_context s = (
    build_diagram_context s.canvas_blocks s.active_blocks s.saved_library none none
        "No diagram loaded yet.",
    s,
  )

  unfoldable pub run_text_turn : String → String → Exec (Chat W) (Unit {0})
  unfolding send append_history turn_context reads history_of converse replace ◌>>=◌
  run_text_turn content conversation_id =
      if services.openai_api_key == ""
      then send (error_message "AI not configured — set OPENAI_API_KEY")
      else append_history conversation_id (by_user content)
        >> (turn_context >>= λ context.
            gets (λ s. history_of conversation_id s.histories) >>= λ history.
            converse conversation_id (first_messages context history))
