-- ===== src/Session/Turns/Speaking.antt =====
-- What the parts of a text turn of app/modules/session/router.py send: chunks, as the text grows.
use grafux_orchestrator.Prelude.{
  ℕ, suc, String, ◌<>◌, ◌==◌, ◌≡◌, refl, ap, ◌∙◌, true, not, ◌||◌, Option, none, some, List, [],
  ◌∷◌, ◌++◌, map, Bool-cases, inl, inr, eq_iff,
}
use package.text.Mathlib.TextLemmas.{append-nil}
use grafux_orchestrator.Python.{
  Value, null, flag, num, neg, real, text, arr, obj, Fields, Items, nil, cons, Outcome,
}
use grafux_orchestrator.Exec.{Exec, pure, lift, skip, ◌>>=◌, ◌>>◌}
use grafux_orchestrator.Exec.Triples.{
  Ends-outcome, Meets, Meets-pure, Meets-lift, Meets-if, Meets-bind,
}
use grafux_orchestrator.Session.Port.{
  Read, unaddressed, read_of, read_of_call, no_address, port_request, read_answer,
}
use grafux_orchestrator.Session.Turns.{
  StreamedCall, Prompt, StreamChoice, Sent, text_chunk, Chat, Services, Heard, heard, is_creation,
  nothing_heard, has_calls, called, result, read_args, assistant_tool_calls,
}
use grafux_orchestrator.Session.Turns.Loop.{
  send, ask_world, hear, listen, create, read_segment, ask_client, resolve_read_tool, answer_call,
  answer_calls, go_on, passes, stamp_action, stamp_items, stamp_actions,
}

-- The chunks behind what was sent before, the newest first, and the text that they make.
abbrev pub chunks_on : List String → List Sent → List Sent
chunks_on pieces before = map text_chunk pieces ++ before

abbrev pub told : List String → String
told [] = ""
told (piece ∷ pieces) = told pieces <> piece

-- Since `start`, nothing but chunks was sent, and the histories are as they were.
pub record Speaking {W : Type 0} (start : Chat W) (full_text : String) (s : Chat W) : Type 0 where
  pub pieces : List String
  pub sent : s.sent ≡ chunks_on pieces start.sent
  pub full : full_text ≡ told pieces
  pub kept : s.histories ≡ start.histories

-- The same, whatever text it was.
pub data Spoken {W : Type 0} (start s : Chat W) : Type 0 where
  spoken : (full_text : String) → Speaking start full_text s → Spoken start s

module _ {W : Type 0} (start : Chat W) where
  -- After an action that sends nothing.
  abbrev Quiet : {A : Type 0} → String → A → Chat W → Type 0
  Quiet full_text a s = Speaking start full_text s

  moved :
      (full_text : String) (s t : Chat W)
      → t.sent ≡ s.sent
      → t.histories ≡ s.histories
      → Speaking start full_text s
      → Speaking start full_text t
  moved full_text s t same_sent same_histories h = record {
    pieces = h.pieces;
    sent = same_sent ∙ h.sent;
    full = h.full;
    kept = same_histories ∙ h.kept;
  }

  -- An empty piece is not sent, and adds nothing.
  silent :
      (full_text piece : String) (s : Chat W)
      → (piece == "") ≡ true
      → Speaking start full_text s
      → Speaking start (full_text <> piece) s
  silent full_text piece s e h = record {
    pieces = h.pieces;
    sent = h.sent;
    full = ap (λ p. full_text <> p) ((eq_iff piece "").0 e) ∙ append-nil full_text ∙ h.full;
    kept = h.kept;
  }

  louder :
      (full_text piece : String) (s : Chat W)
      → Speaking start full_text s
      → Speaking start (full_text <> piece) (record s { sent = text_chunk piece ∷ s.sent })
  louder full_text piece s h = record {
    pieces = piece ∷ h.pieces;
    sent = ap (λ rest. text_chunk piece ∷ rest) h.sent;
    full = ap (λ p. p <> piece) h.full;
    kept = h.kept;
  }

  Meets-ask_world :
      {A : Type 0} (f : W → Outcome A × W) (full_text : String) (s : Chat W)
      → Speaking start full_text s
      → Meets (Quiet full_text) (Spoken start) (ask_world f) s
  unfolding ask_world
  Meets-ask_world f full_text s h =
      let t = record s { world = (f s.world).1 } in
      let next = moved full_text s t refl refl h in
      record {
        ended =
            Ends-outcome (Quiet full_text) (Spoken start) (f s.world).0 t (λ a. next)
              (spoken full_text next);
      }

  hear-Speaking :
      (chunk : Option StreamChoice) (h : Heard) (s : Chat W)
      → Speaking start h.full_text s
      → Meets (λ g. Speaking start g.full_text) (Spoken start) (hear chunk h) s
  unfolding hear heard send
  hear-Speaking none h s speaking = Meets-pure h s speaking
  hear-Speaking (some choice) h s speaking =
      Meets-bind (λ _. Speaking start (h.full_text <> choice.content)) _ _ s
        (Meets-if (choice.content == "") skip (send (text_chunk choice.content)) s
          (λ e. Meets-pure tt s (silent h.full_text choice.content s e speaking))
          (λ e. record { ended = louder h.full_text choice.content s speaking }))
        (λ _ t next. Meets-pure (heard choice h) t next)

  listen-Speaking :
      (chunks : List (Option StreamChoice)) (h : Heard) (s : Chat W)
      → Speaking start h.full_text s
      → Meets (λ g. Speaking start g.full_text) (Spoken start) (listen chunks h) s
  unfolding listen
  listen-Speaking [] h s speaking = Meets-pure h s speaking
  listen-Speaking (chunk ∷ chunks) h s speaking =
      Meets-bind (λ g. Speaking start g.full_text) (hear chunk h) (listen chunks) s
        (hear-Speaking chunk h s speaking) (listen-Speaking chunks)

module _ {W : Type 0} (services : Services W) (start : Chat W) where
  read_segment-Speaking :
      (messages : List Prompt) (full_text : String) (s : Chat W)
      → Speaking start full_text s
      → Meets
          (λ g. Speaking start g.full_text)
          (Spoken start)
          (read_segment services messages full_text)
          s
  unfolding read_segment create
  read_segment-Speaking messages full_text s h =
      Meets-bind (λ _. Speaking start full_text) (create services messages)
        (λ answer. listen answer.0 (nothing_heard full_text) >>= λ g. lift answer.1 >> pure g) s
        (record { ended = moved start full_text s _ refl refl h })
        (λ answer t g.
          Meets-bind (λ k. Speaking start k.full_text) (listen answer.0 (nothing_heard full_text))
            (λ k. lift answer.1 >> pure k) t
            (listen-Speaking start answer.0 (nothing_heard full_text) t g)
            (λ k u j.
              Meets-bind (λ _. Speaking start k.full_text) (lift answer.1) (λ _. pure k) u
                (Meets-lift answer.1 u (λ _. j) (spoken k.full_text j))
                (λ _ v i. Meets-pure k v i)))

  ask_client-Quiet :
      (read : Read) (full_text : String) (s : Chat W)
      → Speaking start full_text s
      → Meets (λ _. Speaking start full_text) (Spoken start) (ask_client services read) s
  unfolding ask_client
  ask_client-Quiet unaddressed full_text s h = Meets-pure (text no_address) s h
  ask_client-Quiet (read_of target direction port) full_text s h =
      let f = services.reply (port_request target direction port) in
      let answer : Fields → Exec (Chat W) Value =
        λ reply. pure (read_answer target direction port reply) in
      Meets-bind (λ _. Speaking start full_text) (ask_world f) answer s
        (Meets-ask_world start f full_text s h)
        (λ reply t g. Meets-pure (read_answer target direction port reply) t g)

  answer_call-Quiet :
      (call : StreamedCall) (full_text : String) (s : Chat W)
      → Speaking start full_text s
      → Meets (λ _. Speaking start full_text) (Spoken start) (answer_call services call) s
  unfolding answer_call resolve_read_tool
  answer_call-Quiet call full_text s h =
      let args = read_args (services.loads call.arguments) in
      let finish : Value → Exec (Chat W) Prompt = λ value. pure (result call.id value) in
      Meets-bind (λ _. Speaking start full_text) (lift args)
        (λ args. resolve_read_tool services args >>= finish) s
        (Meets-lift args s (λ _. h) (spoken full_text h))
        (λ args t g.
          Meets-bind (λ _. Speaking start full_text) (resolve_read_tool services args) finish t
            (record {
              ended = (ask_client-Quiet (read_of_call t.active_blocks args) full_text t g).ended;
            })
            (λ value u j. Meets-pure (result call.id value) u j))

  answer_calls-Quiet :
      (calls : List StreamedCall) (full_text : String) (s : Chat W)
      → Speaking start full_text s
      → Meets (λ _. Speaking start full_text) (Spoken start) (answer_calls services calls) s
  unfolding answer_calls
  answer_calls-Quiet [] full_text s h = Meets-pure [] s h
  answer_calls-Quiet (call ∷ calls) full_text s h =
      let rest : Prompt → List Prompt → Exec (Chat W) (List Prompt) =
        λ message messages. pure (message ∷ messages) in
      Meets-bind (λ _. Speaking start full_text) (answer_call services call)
        (λ message. answer_calls services calls >>= rest message) s
        (answer_call-Quiet call full_text s h)
        (λ message t g.
          Meets-bind (λ _. Speaking start full_text) (answer_calls services calls) (rest message) t
            (answer_calls-Quiet calls full_text t g)
            (λ messages u j. Meets-pure (message ∷ messages) u j))

  go_on-Speaking :
      (messages : List Prompt) (g : Heard) (more : List Prompt → Exec (Chat W) String) (s : Chat W)
      → ((longer : List Prompt) (t : Chat W)
          → Speaking start g.full_text t
          → Meets (Speaking start) (Spoken start) (more longer) t)
      → Speaking start g.full_text s
      → Meets (Speaking start) (Spoken start) (go_on services messages g more) s
  unfolding go_on
  go_on-Speaking messages g more s then_on h =
      let calls = assistant_tool_calls g.tool_calls in
      let longer : List Prompt → List Prompt =
        λ results. messages ++ called g.segment_text calls ∷ results in
      Meets-if (not (g.finish_reason == "tool_calls") || not (has_calls g.tool_calls))
        (pure g.full_text) (answer_calls services calls >>= λ results. more (longer results)) s
        (λ _. Meets-pure g.full_text s h)
        (λ _.
          Meets-bind (λ _. Speaking start g.full_text) (answer_calls services calls)
            (λ results. more (longer results)) s (answer_calls-Quiet calls g.full_text s h)
            (λ results t j. then_on (longer results) t j))

  pub passes-Speaking :
      (n : ℕ) (messages : List Prompt) (full_text : String) (s : Chat W)
      → Speaking start full_text s
      → Meets (Speaking start) (Spoken start) (passes services n messages full_text) s
  unfolding passes
  passes-Speaking ℕ.zero messages full_text s h = Meets-pure full_text s h
  passes-Speaking (suc n) messages full_text s h =
      let more : Heard → List Prompt → Exec (Chat W) String =
        λ g longer. passes services n longer g.full_text in
      Meets-bind (λ g. Speaking start g.full_text) (read_segment services messages full_text)
        (λ g. go_on services messages g (more g)) s (read_segment-Speaking messages full_text s h)
        (λ g t speaking.
          go_on-Speaking messages g (more g) t
            (λ longer u j. passes-Speaking n longer g.full_text u j) speaking)

  stamp_action-Quiet :
      (action : Value) (full_text : String) (s : Chat W)
      → Speaking start full_text s
      → Meets (λ _. Speaking start full_text) (Spoken start) (stamp_action services action) s
  unfolding stamp_action
  stamp_action-Quiet action full_text s h = elim (Bool-cases (is_creation action)) [
    | inl e ↦ record { ended = rw e (moved start full_text s _ refl refl h) }
    | inr e ↦ record { ended = rw e h }
  ]

  stamp_items-Quiet :
      (vs : Items) (full_text : String) (s : Chat W)
      → Speaking start full_text s
      → Meets (λ _. Speaking start full_text) (Spoken start) (stamp_items services vs) s
  unfolding stamp_items
  stamp_items-Quiet nil full_text s h = Meets-pure nil s h
  stamp_items-Quiet (cons v vs) full_text s h =
      let rest : Value → Items → Exec (Chat W) Items = λ stamped items. pure (cons stamped items) in
      Meets-bind (λ _. Speaking start full_text) (stamp_action services v)
        (λ stamped. stamp_items services vs >>= rest stamped) s (stamp_action-Quiet v full_text s h)
        (λ stamped t g.
          Meets-bind (λ _. Speaking start full_text) (stamp_items services vs) (rest stamped) t
            (stamp_items-Quiet vs full_text t g) (λ items u j. Meets-pure (cons stamped items) u j))

  pub stamp_actions-Quiet :
      (v : Value) (full_text : String) (s : Chat W)
      → Speaking start full_text s
      → Meets (λ _. Speaking start full_text) (Spoken start) (stamp_actions services v) s
  unfolding stamp_actions
  stamp_actions-Quiet (arr shown vs) full_text s h =
      let whole : Items → Exec (Chat W) Value = λ stamped. pure (arr shown stamped) in
      Meets-bind (λ _. Speaking start full_text) (stamp_items services vs) whole s
        (stamp_items-Quiet vs full_text s h) (λ stamped t g. Meets-pure (arr shown stamped) t g)
  stamp_actions-Quiet (text x) full_text s h = Meets-pure (text x) s h
  stamp_actions-Quiet (obj shown fs) full_text s h = Meets-pure (obj shown fs) s h
  stamp_actions-Quiet null full_text s h = Meets-lift _ s (λ _. h) (spoken full_text h)
  stamp_actions-Quiet (flag b) full_text s h = Meets-lift _ s (λ _. h) (spoken full_text h)
  stamp_actions-Quiet (num n) full_text s h = Meets-lift _ s (λ _. h) (spoken full_text h)
  stamp_actions-Quiet (neg n) full_text s h = Meets-lift _ s (λ _. h) (spoken full_text h)
  stamp_actions-Quiet (real x y) full_text s h = Meets-lift _ s (λ _. h) (spoken full_text h)
