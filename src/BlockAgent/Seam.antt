-- ===== src/BlockAgent/Seam.antt =====
-- The seam of `BlockAgentLoop` with the world, and its reports `_step` and `_report_state`, of
-- app/modules/session/block_agent.py.
use grafux_orchestrator.Prelude.{suc, String, Bool, Option, List, ◌∷◌, if◌then◌else◌}
use grafux_orchestrator.Python.{Fields, Outcome}
use grafux_orchestrator.BlockAgent.Data.{
  ToolTurn, Entry, Message, agent_step, agent_state, Agent, World, Event, interrupted, emitted,
  acted, read, asked, prompted, Session,
}
use grafux_orchestrator.Exec.{reads, Exec, gets, modify, skip, ◌>>=◌, ◌>>◌}
use grafux_orchestrator.BlockAgent.Rules.{settle}

abbrev pub on_agent : {W : Type 0} → (Agent → Agent) → Session W → Session W
on_agent f s = record s { agent = f s.agent }

module _ {W : Type 0} (world : World W) where
  -- An await: the request is noted, the world answers, and then other tasks have had their turn.
  unfoldable pub perform : {A : Type 0} → Event → (W → Outcome A × W) → Exec (Session W) A
  unfolding settle
  perform event call s =
      let (r, w) = call s.world in
      (
        r,
        record {
          agent = settle (world.interrupt w) s.agent;
          world = w;
          trace = interrupted (world.interrupt w) ∷ event ∷ s.trace;
        },
      )

  unfoldable pub emit : Message → Exec (Session W) (Unit {0})
  unfolding perform
  emit message = perform (emitted message) (world.emit message)

  unfoldable pub act : Fields → Bool → Exec (Session W) Fields
  unfolding perform
  act action expensive = perform (acted action expensive) (world.act action expensive)

  unfoldable pub read_port : String → String → String → Exec (Session W) String
  unfolding perform
  read_port target direction port =
      perform (read target direction port) (world.read_port target direction port)

  unfoldable pub ask : String → String → Exec (Session W) String
  unfolding perform
  ask block_id question = perform (asked block_id question) (world.ask block_id question)

  unfoldable pub call_llm_tools :
      String → List Entry → List String → Option String → Exec (Session W) ToolTurn
  unfolding perform
  call_llm_tools system messages declarations model =
      perform (prompted messages declarations)
        (world.call_llm_tools system messages declarations model)

  -- The report of a step, with the number that the loop has just drawn.
  unfoldable pub send_step :
      String → String → Option (String × Fields) → Agent → Exec (Session W) (Unit {0})
  unfolding emit
  send_step kind line tool a = emit (agent_step a.block_id a.seq kind line tool)

  -- `_step`
  unfoldable pub step : String → String → Option (String × Fields) → Exec (Session W) (Unit {0})
  unfolding send_step ◌>>=◌ reads modify
  step kind line tool = do
    a ← gets (λ s. s.agent)
    if a.detached then skip else do
      modify (on_agent (λ b. record b { seq = suc b.seq }))
      b ← gets (λ s. s.agent)
      send_step kind line tool b

  -- `_report_state`
  unfoldable pub report_state : Exec (Session W) (Unit {0})
  unfolding emit ◌>>=◌ reads
  report_state = do
    a ← gets (λ s. s.agent)
    if a.detached
        then skip
        else emit (
            agent_state a.block_id a.state a.summary a.goal a.goal_met a.steps_used
              a.policy.max_steps)
