-- ===== src/Session/Turns/Closing.antt =====
-- What a text turn of app/modules/session/router.py sends, and what it leaves in the histories.
use grafux_orchestrator.Prelude.{
  String, ◌==◌, ◌≡◌, refl, sym, ap, ◌∙◌, false, List, [], ◌∷◌, ◌⊎◌, inl, inr,
}
use mathlib.Core.Path.{subst}
use grafux_orchestrator.Python.{Value, Outcome, ok, raised, cancelled}
use grafux_orchestrator.Exec.{Exec, skip, try_except, handle, ◌>>=◌, ◌>>◌}
use grafux_orchestrator.Exec.Outcomes.{bind-ok}
use grafux_orchestrator.Exec.Triples.{Ends, Meets, Meets-pure, Meets-if, Meets-bind, Meets-Yields}
use grafux_orchestrator.CanvasContext.{parse_actions_tag}
use grafux_orchestrator.Session.Turns.{
  by_user, by_assistant, Prompt, error_message, turn_complete, Chat, Services, history_of,
  append_entry,
}
use grafux_orchestrator.Session.Turns.Loop.{
  send, append_history, passes, stamp_actions, any_enrichable, items_of, spawn_enrichment,
  complete_turn, converse, turn_context, run_text_turn, first_messages,
}
use grafux_orchestrator.Session.Turns.Stamping.{AreSent, stamp_actions-Yields}
use grafux_orchestrator.Session.Turns.Speaking.{
  chunks_on, told, Speaking, Spoken, spoken, passes-Speaking, stamp_actions-Quiet,
}

-- A turn that was completed: behind its chunks, the text that they make without the actions, and
-- the actions that were parsed from it, stamped; the text is the next entry of the conversation.
pub record IsCompleted {W : Type 0} (services : Services W) (id : String) (start after : Chat W)
    : Type 0 where
  pub pieces : List String
  pub actions : Value
  pub sent :
      after.sent
      ≡ turn_complete (parse_actions_tag services.loads (told pieces)).0 actions
        ∷ chunks_on pieces start.sent
  pub parsed : AreSent (parse_actions_tag services.loads (told pieces)).1 actions
  pub histories :
      after.histories
      ≡ append_entry id
          (by_assistant (parse_actions_tag services.loads (told pieces)).0)
          start.histories

-- A turn that failed: behind its chunks, an error; the histories are as at the start.
pub record HasFailed {W : Type 0} (start after : Chat W) : Type 0 where
  pub pieces : List String
  pub message : String
  pub sent : after.sent ≡ error_message message ∷ chunks_on pieces start.sent
  pub histories : after.histories ≡ start.histories

-- The turn returns completed or failed, or is cancelled.
module _ {W : Type 0} (services : Services W) (id : String) (start : Chat W) where
  abbrev pub Concluded : Outcome (Unit {0}) × Chat W → Type 0
  Concluded (ok _, after) = IsCompleted services id start after ⊎ HasFailed start after
  Concluded (raised e, after) = ⊥
  Concluded (cancelled, after) = Unit

  spawned :
      (actions : Value) (t : Chat W)
      → IsCompleted services id start t
      → Meets (λ _. IsCompleted services id start) (Spoken start) (spawn_enrichment actions) t
  unfolding spawn_enrichment
  spawned actions t g =
      Meets-if (any_enrichable (items_of actions)) _ skip t
        (λ _. record {
          ended = record {
            pieces = g.pieces;
            actions = g.actions;
            sent = g.sent;
            parsed = g.parsed;
            histories = g.histories;
          };
        })
        (λ _. Meets-pure tt t g)

  completed :
      (full_text : String) (actions : Value) (t : Chat W)
      → AreSent (parse_actions_tag services.loads full_text).1 actions
      → Speaking start full_text t
      → Meets
          (λ _. IsCompleted services id start)
          (Spoken start)
          (append_history id (by_assistant (parse_actions_tag services.loads full_text).0)
            >> (send (turn_complete (parse_actions_tag services.loads full_text).0 actions)
                >> spawn_enrichment actions))
          t
  unfolding append_history send spawn_enrichment ◌>>=◌
  completed full_text actions t sent g = record {
    ended =
        (spawned actions _ (record {
          pieces = g.pieces;
          actions = actions;
          sent =
              ap (λ full. turn_complete (parse_actions_tag services.loads full).0 actions ∷ t.sent)
                g.full
              ∙ ap
                  (λ rest.
                    turn_complete (parse_actions_tag services.loads (told g.pieces)).0 actions
                    ∷ rest)
                  g.sent;
          parsed =
              subst (λ full. AreSent (parse_actions_tag services.loads full).1 actions) g.full sent;
          histories =
              ap
                (λ full.
                  append_entry id (by_assistant (parse_actions_tag services.loads full).0)
                    t.histories)
                g.full
              ∙ ap
                  (append_entry id
                    (by_assistant (parse_actions_tag services.loads (told g.pieces)).0))
                  g.kept;
        })).ended;
  }

  complete_turn-IsCompleted :
      (full_text : String) (s : Chat W)
      → Speaking start full_text s
      → Meets
          (λ _. IsCompleted services id start)
          (Spoken start)
          (complete_turn services id full_text)
          s
  unfolding complete_turn
  complete_turn-IsCompleted full_text s h =
      let display_text = (parse_actions_tag services.loads full_text).0 in
      let parsed = (parse_actions_tag services.loads full_text).1 in
      let finish : Value → Exec (Chat W) (Unit {0}) = λ actions.
        append_history id (by_assistant display_text)
        >> (send (turn_complete display_text actions) >> spawn_enrichment actions) in
      Meets-bind (λ actions t. AreSent parsed actions × Speaking start full_text t)
        (stamp_actions services parsed) finish s
        (Meets-Yields (AreSent parsed) (stamp_actions services parsed) s
          (stamp_actions-Yields services parsed)
          (stamp_actions-Quiet services start parsed full_text s h))
        (λ actions t g. completed full_text actions t g.0 g.1)

  handled-Concluded :
      (r : Outcome (Unit {0})) (s : Chat W)
      → Ends (λ _. IsCompleted services id start) (Spoken start) (r, s)
      → Concluded (handle r (λ e. send (error_message e)) s)
  unfolding handle send
  handled-Concluded (ok a) s h = inl h
  handled-Concluded (raised e) s (spoken full_text h) = inr (record {
    pieces = h.pieces;
    message = e;
    sent = ap (λ rest. error_message e ∷ rest) h.sent;
    histories = h.kept;
  })
  handled-Concluded cancelled s h = tt

  converse-Concluded : (messages : List Prompt) → Concluded (converse services id messages start)
  unfolding converse try_except
  converse-Concluded messages =
      let body = passes services 4 messages "" >>= complete_turn services id in
      let met : Meets (λ _. IsCompleted services id start) (Spoken start) body start =
        Meets-bind (Speaking start) (passes services 4 messages "") (complete_turn services id)
          start
          (passes-Speaking services start 4 messages "" start
            (record { pieces = []; sent = refl; full = refl; kept = refl }))
          complete_turn-IsCompleted in
      handled-Concluded (body start).0 (body start).1 met.ended

-- The session once the user's text is in the history.
abbrev pub heard_user : {W : Type 0} → String → String → Chat W → Chat W
heard_user content id s = record s { histories = append_entry id (by_user content) s.histories }

module _ {W : Type 0} (services : Services W) (content id : String) (s : Chat W) where
  pub turn-converse :
      (context : String)
      → (services.openai_api_key == "") ≡ false
      → (turn_context services s).0 ≡ ok context
      → run_text_turn services content id s
        ≡ converse services id
            (first_messages services context (history_of id (heard_user content id s).histories))
            (heard_user content id s)
  unfolding run_text_turn append_history turn_context
  turn-converse context key built =
      rw key (bind-ok (turn_context services) _ (heard_user content id s) context built)

  -- With a key, and a canvas whose text can be made, a turn raises no exception, and unless it is
  -- cancelled its last message is an error or is turn_complete. What it sent before that are the
  -- chunks of one text. If the turn is completed, turn_complete has the display text and the actions
  -- that parse_actions_tag makes of that text, each action that creates a block with an id and, if
  -- it is to be enriched, marked as pending, and the others as they were; and the history of the
  -- conversation has got what the user said and then the display text. If it failed, the history
  -- has got only what the user said.
  pub run_text_turn-Concluded :
      (context : String)
      → (services.openai_api_key == "") ≡ false
      → (turn_context services s).0 ≡ ok context
      → Concluded services id (heard_user content id s) (run_text_turn services content id s)
  run_text_turn-Concluded context key built =
      subst (Concluded services id (heard_user content id s))
        (sym (turn-converse context key built))
        (converse-Concluded services id (heard_user content id s) _)
