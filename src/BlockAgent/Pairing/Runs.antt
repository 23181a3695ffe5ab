-- ===== src/BlockAgent/Pairing/Runs.antt =====
-- The prompts of a whole run of app/modules/session/block_agent.py: `_loop` and `run`.
use grafux_orchestrator.Prelude.{
  ℕ, zero, suc, String, Bool, true, false, Option, some, List, if◌then◌else◌,
}
use grafux_orchestrator.Python.{Fields, Outcome, ok, raised, cancelled}
use grafux_orchestrator.BlockAgent.Data.{Entry, user, State, Agent, World, Session}
use grafux_orchestrator.Exec.{
  Exec, reads, Keeps, Keeps-reads, Keeps-modify, Keeps-bind, keeps_rules, bind_at, try_except_at,
  modify, skip, pure, try_except, try_finally, continue, ◌>>=◌, ◌>>◌,
}
use grafux_orchestrator.BlockAgent.Seam.{on_agent, step, report_state}
use grafux_orchestrator.BlockAgent.Loop.{say, round, rounds, loop, fail, close, run, opening, leave}
use grafux_orchestrator.BlockAgent.Prompt.{build_system_prompt}
use grafux_orchestrator.BlockAgent.Policy.{tool_names}
use grafux_orchestrator.CanvasTools.{to_declarations}
use grafux_orchestrator.BlockAgent.Pairing.{
  IsPaired, PromptsAcceptable, Steady, emit-Keeps, step-Keeps,
}
use grafux_orchestrator.BlockAgent.Pairing.Rounds.{Ready, Ends}
use grafux_orchestrator.BlockAgent.Pairing.Prompts.{Ready-Keeps, Sound-Keeps, say-Keeps, round-Ends}

module _ {W : Type 0} where
  -- A round, and then the others if it does not return.
  again :
      (r : Outcome Bool) (more : Exec (Session W) Bool) (t : Session W)
      → Ends (r, t)
      → ((u : Session W) → Ready u → Ends (more u))
      → Ends (continue r (λ done. if done then pure true else more) t)
  unfolding continue reads
  again (ok true) more t h go = h
  again (ok false) more t h go = go t h
  again (raised e) more t h go = h
  again cancelled more t h go = h

  continued_sound :
      {A : Type 0} (r : Outcome A) (rest : A → Exec (Session W) (Unit {0})) (t : Session W)
      → Ready t
      → ((a : A) (u : Session W) → Ready u → PromptsAcceptable (rest a u).1.trace)
      → PromptsAcceptable (continue r rest t).1.trace
  unfolding continue
  continued_sound (ok a) rest t h go = go a t h
  continued_sound (raised e) rest t h go = h.sound
  continued_sound cancelled rest t h go = h.sound

  then_sound :
      {A : Type 0} (action : Exec (Session W) A) (rest : A → Exec (Session W) (Unit {0}))
      (s : Session W)
      → Ready (action s).1
      → ((a : A) (u : Session W) → Ready u → PromptsAcceptable (rest a u).1.trace)
      → PromptsAcceptable ((action >>= rest) s).1.trace
  unfolding ◌>>=◌
  then_sound action rest s h go = continued_sound (action s).0 rest (action s).1 h go

  Ends-sound : (r : Outcome Bool) (t : Session W) → Ends (r, t) → PromptsAcceptable t.trace
  Ends-sound (ok true) t h = h
  Ends-sound (ok false) t h = h.sound
  Ends-sound (raised e) t h = h
  Ends-sound cancelled t h = h

module _ {W : Type 0} (world : World W) where
  rounds-Ends :
      (fuel : ℕ) (prefix_text : String) (declarations : List String) (s : Session W)
      → Ready s
      → Ends (rounds world fuel prefix_text declarations s)
  unfolding rounds reads ◌>>=◌
  rounds-Ends zero prefix_text declarations s h = h
  rounds-Ends (suc fuel) prefix_text declarations s h =
      again (round world prefix_text declarations s).0 (rounds world fuel prefix_text declarations)
        (round world prefix_text declarations s).1 (round-Ends world prefix_text declarations s h)
        (λ u ready. rounds-Ends fuel prefix_text declarations u ready)

  Sound-step :
      (kind line : String) (call : Option (String × Fields))
      → Keeps (λ (s : Session W). PromptsAcceptable s.trace) (step world kind line call)
  Sound-step kind line call = Sound-Keeps (λ messages. step-Keeps world messages kind line call)

  Sound-write :
      (f : Agent → Agent)
      → Keeps (λ (s : Session W). PromptsAcceptable s.trace) (modify (on_agent f))
  Sound-write f = Keeps-modify (on_agent f) (λ s h. h)

  report_state-Keeps : (messages : List Entry) → Keeps (Steady messages) (report_state world)
  unfolding report_state
  report_state-Keeps messages = search (keeps_rules, emit-Keeps)

  loop-Ends : (s : Session W) → Ready s → Ends (loop world s)
  unfolding loop reads
  loop-Ends s h =
      rounds-Ends (suc s.agent.policy.max_steps) (build_system_prompt world.system_prompt s.agent)
        (to_declarations (some (tool_names s.agent.policy))) s h

  loop_sound : (s : Session W) → Ready s → PromptsAcceptable ((loop world >> skip) s).1.trace
  unfolding reads
  loop_sound s h =
      bind_at (λ (t : Session W). PromptsAcceptable t.trace) (loop world) (λ _. skip) s
        (Ends-sound (loop world s).0 (loop world s).1 (loop-Ends s h))
        (λ _. Keeps-reads (λ _. ok tt))

  Sound-fail :
      (exc : String) → Keeps (λ (s : Session W). PromptsAcceptable s.trace) (fail world exc)
  unfolding fail
  Sound-fail exc = search (keeps_rules, Sound-write, Sound-step)

  Keeps-close : Keeps (λ (s : Session W). PromptsAcceptable s.trace) (close world)
  unfolding close
  Keeps-close =
      Keeps-bind (modify (on_agent (leave world))) (λ _. report_state world)
        (Sound-write (leave world)) (λ _. Sound-Keeps report_state-Keeps)

  ending_sound :
      (s : Session W)
      → Ready s
      → PromptsAcceptable
          (try_finally (try_except (loop world >> skip) (fail world)) (close world) s).1.trace
  unfolding try_finally
  ending_sound s h = (Keeps-close).at (try_except (loop world >> skip) (fail world) s).1 (
      try_except_at (λ (t : Session W). PromptsAcceptable t.trace) (loop world >> skip) (fail world)
        s (loop_sound s h) Sound-fail)

  -- A run that starts with a paired transcript, in which each turn with tool calls is followed by
  -- the results of its calls in their order, sends the model only such transcripts, with the canvas
  -- as a `system` entry at the end or none; however the run ends, and whatever the model, the canvas
  -- and other tasks do.
  pub run-PromptsAcceptable :
      (instruction : String) (s : Session W)
      → IsPaired s.agent.messages
      → PromptsAcceptable s.trace
      → PromptsAcceptable (run world instruction s).1.trace
  unfolding run reads modify ◌>>=◌
  run-PromptsAcceptable instruction s paired sound =
      let started =
        on_agent (λ a. record a { started_at = world.monotonic s.world; state = State.running })
          s in
      let speak : Exec (Session W) (Unit {0}) =
        modify (on_agent (λ a. say (user (opening world a instruction)) a)) in
      then_sound (report_state world)
        (λ _. speak >> try_finally (try_except (loop world >> skip) (fail world)) (close world))
        started
        ((Ready-Keeps report_state-Keeps).at started (record { paired = paired; sound = sound }))
        (λ _ t ready.
          ending_sound (speak t).1
            ((say-Keeps world (opening world t.agent instruction)).at t ready))
