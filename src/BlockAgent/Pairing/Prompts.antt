-- ===== src/BlockAgent/Pairing/Prompts.antt =====
-- The rounds of app/modules/session/block_agent.py, each with the prompts that it sends: `consult`,
-- `_wrap_up` and the early returns.
use grafux_orchestrator.Prelude.{
  String, ◌≡◌, refl, sym, ◌∙◌, Bool, true, not, Option, none, List, [], ◌∷◌, ◌++◌, ◌==◌, ◌<>◌,
  strip, arith,
}
use mathlib.Core.Path.{subst}
use grafux_orchestrator.Python.{Fields, or_text}
use grafux_orchestrator.BlockAgent.Data.{Entry, user, State, Agent, World, Session}
use grafux_orchestrator.Exec.{
  Exec, reads, whole_if, Keeps, Keeps-modify, Keeps-try_except, keeps_rules, bind_at, gets, modify,
  pure, ◌>>=◌, ◌>>◌,
}
use grafux_orchestrator.Exec.Outcomes.{Yields-pure, Yields-then}
use grafux_orchestrator.BlockAgent.Seam.{on_agent, call_llm_tools, step}
use grafux_orchestrator.BlockAgent.Loop.{
  say, summarise, wrap_up, consult, halt, give_up, round, announce_model, take_turn,
  budget_exhausted,
}
use grafux_orchestrator.BlockAgent.Prompt.{context_message}
use grafux_orchestrator.BlockAgent.Induction.{settle-Unmoved, use_step}
use grafux_orchestrator.BlockAgent.Pairing.{
  IsPaired, IsAcceptable, bare, with_context, PromptsAcceptable, Steady, write-Keeps, step-Keeps,
}
use grafux_orchestrator.BlockAgent.Pairing.Rounds.{
  Ready, Ends, Ends-then, over, over_steadily, IsPairedAfter-append, announce_model-Keeps,
  take_turn-Ends,
}

module _ {W A : Type 0} {action : Exec (Session W) A} where
  -- An action that leaves the transcript alone keeps the session ready, and the prompts acceptable.
  pub Ready-Keeps : ((messages : List Entry) → Keeps (Steady messages) action) → Keeps Ready action
  Ready-Keeps keeps = record {
    at = λ s h.
        let after = (keeps s.agent.messages).at s (record { kept = refl; sound = h.sound }) in
        record { paired = subst IsPaired (sym after.kept) h.paired; sound = after.sound };
  }

  pub Sound-Keeps :
      ((messages : List Entry) → Keeps (Steady messages) action)
      → Keeps (λ (s : Session W). PromptsAcceptable s.trace) action
  Sound-Keeps keeps = record {
    at = λ s h. ((keeps s.agent.messages).at s (record { kept = refl; sound = h })).sound;
  }

module _ {W : Type 0} (world : World W) where
  prompt-Steady :
      (messages prompt : List Entry) (prefix_text : String) (declarations : List String)
      (model : Option String) (s : Session W)
      → IsAcceptable prompt
      → Steady messages s
      → Steady messages (call_llm_tools world prefix_text prompt declarations model s).1
  unfolding call_llm_tools
  prompt-Steady messages prompt prefix_text declarations model s acceptable h = record {
    kept = (settle-Unmoved (world.interrupt _) s.agent).messages ∙ h.kept;
    sound = (acceptable, h.sound);
  }

  consult-Ends :
      (prefix_text : String) (declarations : List String) (s : Session W)
      → Ready s
      → Ends (consult world prefix_text declarations s)
  unfolding consult modify reads
  consult-Ends prefix_text declarations s h =
      let a = s.agent in
      let spent : Steady a.messages (on_agent use_step s) = record {
        kept = refl;
        sound = h.sound;
      } in
      Ends-then a.messages (reads (λ (t : Session W). world.diagram_context t.world))
        (λ canvas.
          call_llm_tools world prefix_text (a.messages ++ context_message canvas ∷ []) declarations
            a.model
          >>= λ turn. announce_model world turn >> take_turn world turn)
        (on_agent use_step s) spent
        (λ canvas t held.
          Ends-then a.messages
            (call_llm_tools world prefix_text (a.messages ++ context_message canvas ∷ [])
              declarations a.model)
            (λ turn. announce_model world turn >> take_turn world turn) t
            (prompt-Steady a.messages (a.messages ++ context_message canvas ∷ []) prefix_text
              declarations a.model t (with_context a.messages _ h.paired) held)
            (λ turn u steady.
              Ends-then a.messages (announce_model world turn) (λ _. take_turn world turn) u
                ((announce_model-Keeps world a.messages turn).at u steady)
                (λ _ v kept. take_turn-Ends world a.messages turn v h.paired kept)))

  halt-Ends : (s : Session W) → Ready s → Ends (halt world s)
  unfolding halt
  halt-Ends s h =
      over_steadily s.agent.messages
        (do
          modify (
              on_agent
                (λ a. record a { state = State.stopped; summary = "Stopped at your request." }))
          step world "note" "Stopped at your request." none
          pure true)
        s (record { kept = refl; sound = h.sound })
        (search (keeps_rules, write-Keeps, step-Keeps, arith)) (search (Yields-pure, Yields-then))

  IsPaired-say :
      (messages : List Entry) (content : String)
      → IsPaired messages
      → IsPaired (messages ++ user content ∷ [])
  IsPaired-say messages content paired =
      IsPairedAfter-append [] messages (user content ∷ []) paired tt

  pub say-Keeps :
      (content : String) → Keeps Ready (modify {S = Session W} (on_agent (say (user content))))
  say-Keeps content =
      Keeps-modify (on_agent (say (user content)))
        λ s h. record { paired = IsPaired-say s.agent.messages content h.paired; sound = h.sound }

  Ready-write :
      (f : Agent → Agent)
      → ((a : Agent) → (f a).messages ≡ a.messages)
      → Keeps Ready (modify {S = Session W} (on_agent f))
  Ready-write f same = Ready-Keeps (λ messages. write-Keeps world messages f same)

  Ready-step :
      (kind line : String) (call : Option (String × Fields))
      → Keeps Ready (step world kind line call)
  Ready-step kind line call = Ready-Keeps (λ messages. step-Keeps world messages kind line call)

  -- The guarded part of `summarise`.
  abbrev ask_summary : String → String → Exec (Session W) (Unit {0})
  ask_summary budget prefix_text = do
    a ← gets (λ s. s.agent)
    turn ← call_llm_tools world prefix_text a.messages [] a.model
    modify (
        on_agent
          (λ b. record b { summary = or_text (strip turn.text) ("Reached " <> (budget <> ".")) }))

  ask_summary-Keeps : (budget prefix_text : String) → Keeps Ready (ask_summary budget prefix_text)
  unfolding reads ◌>>=◌
  ask_summary-Keeps budget prefix_text = record {
    at = λ s h.
        let messages = s.agent.messages in
        let asked =
          prompt-Steady messages messages prefix_text [] s.agent.model s (bare messages h.paired)
            (record { kept = refl; sound = h.sound }) in
        bind_at Ready (call_llm_tools world prefix_text messages [] s.agent.model)
          (λ turn. modify (
            on_agent (λ b. record b {
              summary = or_text (strip turn.text) ("Reached " <> (budget <> "."));
            })))
          s (record { paired = subst IsPaired (sym asked.kept) h.paired; sound = asked.sound })
          (λ turn. Ready-write _ (λ a. refl));
  }

  summarise-Keeps : (budget prefix_text : String) → Keeps Ready (summarise world budget prefix_text)
  unfolding summarise
  summarise-Keeps budget prefix_text =
      Keeps-try_except (ask_summary budget prefix_text) _ (ask_summary-Keeps budget prefix_text)
        (λ e. Ready-write _ (λ a. refl))

  wrap_up-Keeps : (budget prefix_text : String) → Keeps Ready (wrap_up world budget prefix_text)
  unfolding wrap_up
  wrap_up-Keeps budget prefix_text =
      search (keeps_rules, Ready-write, Ready-step, say-Keeps, summarise-Keeps, arith) depth 12

  give_up-Ends :
      (budget prefix_text : String) (s : Session W)
      → Ready s
      → Ends (give_up world budget prefix_text s)
  unfolding give_up
  give_up-Ends budget prefix_text s h =
      let action : Exec (Session W) Bool = wrap_up world budget prefix_text >> pure true in
      let keeps : Keeps Ready action = search (keeps_rules, wrap_up-Keeps) in
      over action s (keeps.at s h).sound (search (Yields-pure, Yields-then))

  pub round-Ends :
      (prefix_text : String) (declarations : List String) (s : Session W)
      → Ready s
      → Ends (round world prefix_text declarations s)
  unfolding round reads
  round-Ends prefix_text declarations s h =
      whole_if Ends _ _ s s.agent.stopping (λ _. halt-Ends s h)
        (λ _.
          whole_if Ends _ _ s (not (budget_exhausted s.agent (world.monotonic s.world) == ""))
            (λ _. give_up-Ends _ prefix_text s h) (λ _. consult-Ends prefix_text declarations s h))
