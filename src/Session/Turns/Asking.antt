-- ===== src/Session/Turns/Asking.antt =====
-- What each part of a text turn of app/modules/session/router.py leaves as it was: the prompts.
use grafux_orchestrator.Prelude.{String, Option, none, some, List, [], ◌∷◌, Bool-cases, inl, inr}
use grafux_orchestrator.Python.{
  Value, null, flag, num, neg, real, text, arr, obj, Items, nil, cons, Fields, Outcome, ok,
}
use grafux_orchestrator.Exec.{
  Exec, Keeps, keeps_rules, Keeps-modify, Keeps-if, Keeps-bind, Keeps-reads, pure, modify, skip,
  ◌>>=◌,
}
use grafux_orchestrator.Session.Port.{Read, unaddressed, read_of}
use grafux_orchestrator.Session.Turns.{
  StreamedCall, Said, Prompt, StreamChoice, Sent, Chat, Services, Heard, is_creation,
}
use grafux_orchestrator.Session.Turns.Loop.{
  send, append_history, ask_world, hear, listen, ask_client, resolve_read_tool, answer_call,
  answer_calls, stamp_action, stamp_items, stamp_actions, any_enrichable, items_of,
  spawn_enrichment, complete_turn,
}

-- What only looks at the prompts is kept by all but `create`.
module _ {W : Type 0} (services : Services W) (P : List (List Prompt) → Type 0) where
  abbrev pub Asks : Chat W → Type 0
  Asks s = P s.prompts

  pub send-Keeps : (message : Sent) → Keeps Asks (send message)
  unfolding send
  send-Keeps message = Keeps-modify _ (λ s h. h)

  append_history-Keeps : (id : String) (entry : Said) → Keeps Asks (append_history id entry)
  unfolding append_history
  append_history-Keeps id entry = Keeps-modify _ (λ s h. h)

  ask_world-Keeps : {A : Type 0} (f : W → Outcome A × W) → Keeps Asks (ask_world f)
  unfolding ask_world
  ask_world-Keeps f = record { at = λ s h. h }

  ruleset turn_rules = (keeps_rules, send-Keeps, append_history-Keeps, ask_world-Keeps)

  hear-Keeps : (chunk : Option StreamChoice) (h : Heard) → Keeps Asks (hear chunk h)
  unfolding hear
  hear-Keeps none h = search turn_rules
  hear-Keeps (some choice) h = search turn_rules

  pub listen-Keeps :
      (chunks : List (Option StreamChoice)) (h : Heard) → Keeps Asks (listen chunks h)
  unfolding listen
  listen-Keeps [] h = search turn_rules
  listen-Keeps (chunk ∷ chunks) h = search (turn_rules, hear-Keeps, listen-Keeps chunks)

  ask_client-Keeps : (read : Read) → Keeps Asks (ask_client services read)
  unfolding ask_client
  ask_client-Keeps unaddressed = search turn_rules
  ask_client-Keeps (read_of target direction port) = search turn_rules

  resolve_read_tool-Keeps : (args : Fields) → Keeps Asks (resolve_read_tool services args)
  unfolding resolve_read_tool
  resolve_read_tool-Keeps args = record { at = λ s h. (ask_client-Keeps _).at s h }

  answer_call-Keeps : (call : StreamedCall) → Keeps Asks (answer_call services call)
  unfolding answer_call
  answer_call-Keeps call = search (turn_rules, resolve_read_tool-Keeps)

  pub answer_calls-Keeps : (calls : List StreamedCall) → Keeps Asks (answer_calls services calls)
  unfolding answer_calls
  answer_calls-Keeps [] = search turn_rules
  answer_calls-Keeps (call ∷ calls) =
      let whole : Prompt → List Prompt → Exec (Chat W) (List Prompt) =
        λ message messages. pure (message ∷ messages) in
      Keeps-bind (answer_call services call)
        (λ message. answer_calls services calls >>= whole message) (answer_call-Keeps call)
        (λ message.
          Keeps-bind (answer_calls services calls) (whole message) (answer_calls-Keeps calls)
            (λ messages. Keeps-reads (λ _. ok (message ∷ messages))))

  stamp_action-Keeps : (action : Value) → Keeps Asks (stamp_action services action)
  unfolding stamp_action
  stamp_action-Keeps action = record {
    at = λ s h. elim (Bool-cases (is_creation action)) [ inl e ↦ rw e h | inr e ↦ rw e h ];
  }

  stamp_items-Keeps : (vs : Items) → Keeps Asks (stamp_items services vs)
  unfolding stamp_items
  stamp_items-Keeps nil = search turn_rules
  stamp_items-Keeps (cons v vs) =
      let whole : Value → Items → Exec (Chat W) Items =
        λ stamped items. pure (cons stamped items) in
      Keeps-bind (stamp_action services v) (λ stamped. stamp_items services vs >>= whole stamped)
        (stamp_action-Keeps v)
        (λ stamped.
          Keeps-bind (stamp_items services vs) (whole stamped) (stamp_items-Keeps vs)
            (λ items. Keeps-reads (λ _. ok (cons stamped items))))

  stamp_actions-Keeps : (v : Value) → Keeps Asks (stamp_actions services v)
  unfolding stamp_actions
  stamp_actions-Keeps (arr shown vs) = search (turn_rules, stamp_items-Keeps)
  stamp_actions-Keeps (text x) = search turn_rules
  stamp_actions-Keeps (obj shown fs) = search turn_rules
  stamp_actions-Keeps null = search turn_rules
  stamp_actions-Keeps (flag b) = search turn_rules
  stamp_actions-Keeps (num n) = search turn_rules
  stamp_actions-Keeps (neg n) = search turn_rules
  stamp_actions-Keeps (real x y) = search turn_rules

  spawn_enrichment-Keeps : (actions : Value) → Keeps Asks (spawn_enrichment actions)
  unfolding spawn_enrichment
  spawn_enrichment-Keeps actions =
      Keeps-if (any_enrichable (items_of actions))
        (modify (λ s. record s { enriching = actions ∷ s.enriching })) skip
        (λ _. Keeps-modify _ (λ s h. h)) (λ _. Keeps-reads _)

  pub complete_turn-Keeps :
      (id full_text : String) → Keeps Asks (complete_turn services id full_text)
  unfolding complete_turn
  complete_turn-Keeps id full_text =
      search (turn_rules, stamp_actions-Keeps, spawn_enrichment-Keeps)
