-- ===== src/BlockAgent/Dispatch.antt =====
-- The tool dispatch of `BlockAgentLoop`, of app/modules/session/block_agent.py.
use grafux_orchestrator.Prelude.{
  ◌<>◌, String, count, ◌==◌, true, false, not, Option, none, some, [], ◌∷◌, show, one_of,
  if◌then◌else◌,
}
use grafux_orchestrator.Python.{text, Fields, end, field, put, word, or_text}
use grafux_orchestrator.CanvasTools.{function_call_to_action}
use grafux_orchestrator.BlockAgent.Observation.{render_observation, observed_ok}
use grafux_orchestrator.BlockAgent.Data.{ToolCall, Entry, Agent, World, Session}
use grafux_orchestrator.Exec.{reads, Exec, pure, lift, gets, modify, ◌>>=◌, ◌>>◌}
use grafux_orchestrator.BlockAgent.Rules.{read_tools, result, is_expensive, deny, describe, charge}
use grafux_orchestrator.BlockAgent.Seam.{on_agent, act, read_port, ask, step}

-- The action that the loop hands over, with the block that asks for it.
abbrev pub attributed : Agent → Fields → Fields
attributed a action = put "agent_block_id" (text a.block_id) action

module _ {W : Type 0} (world : World W) where
  -- `_dispatch_ask`
  unfoldable pub dispatch_ask : ToolCall → Exec (Session W) Entry
  unfolding ask step word ◌>>=◌
  dispatch_ask call =
      let question = word "question" call.arguments in
      if question == "" then pure (result call "ask_user needs a question." true) else do
        a ← gets (λ s. s.agent)
        answer ← ask world a.block_id question
        step world "tool_result"
            (if answer == "" then "The user did not answer." else "The user said: " <> answer) none
        pure (result call (or_text answer "(no answer - assume no and continue.)") false)

  -- `_dispatch_read`
  unfoldable pub dispatch_read : ToolCall → Exec (Session W) Entry
  unfolding read_port step word show ◌>>=◌
  dispatch_read call = do
    a ← gets (λ s. s.agent)
    let target = or_text (word "target_block" call.arguments) a.block_name
    let direction = or_text (word "direction" call.arguments) "output"
    let port = word "port_name" call.arguments
    if port == "" then pure (result call "read_port_value needs a port_name." true) else do
      content ← read_port world target direction port
      step world "tool_result"
          ("Read " <> (target <> ("." <> (port <> (" (" <> (show (count content) <> " chars)."))))))
          none
      pure (result call (or_text content "(the port is empty)") false)

  -- What is made of an observation.
  unfoldable pub observed : ToolCall → Fields → Exec (Session W) Entry
  unfolding step render_observation ◌>>=◌
  observed call observation = do
    line ← lift (render_observation observation)
    step world "tool_result" line none
    pure (result call line (not (observed_ok observation)))

  -- The end of `_dispatch`: the action is charged, carried out, and its result reported.
  unfoldable pub carry_out : ToolCall → Option Fields → Exec (Session W) Entry
  unfolding act charge is_expensive put observed ◌>>=◌
  carry_out call none = pure (result call (call.name <> " is not a canvas action.") true)
  carry_out call (some action) = do
    a ← gets (λ s. s.agent)
    let expensive = is_expensive a call (some (attributed a action))
    modify (on_agent (charge call expensive))
    observation ← act world (attributed a action) expensive
    observed call observation

  unfoldable pub denied : ToolCall → String → Exec (Session W) Entry
  unfolding step reads ◌>>=◌
  denied call denial = do step world "denied" denial none; pure (result call denial true)

  unfoldable pub dispatch_action : ToolCall → Exec (Session W) Entry
  unfolding carry_out denied deny function_call_to_action ◌>>=◌
  dispatch_action call = do
    a ← gets (λ s. s.agent)
    let denial = deny a call
    if not (denial == "") then denied call denial else do
      action ← lift (
          function_call_to_action call.name call.arguments
            (field "name" (text a.block_name) end ∷ []))
      carry_out call action

  -- `_dispatch`
  unfoldable pub dispatch : ToolCall → Exec (Session W) Entry
  unfolding dispatch_ask dispatch_read dispatch_action describe step ◌>>=◌
  dispatch call = do
    a ← gets (λ s. s.agent)
    step world "tool_call" (describe a call) (some (call.name, call.arguments))
    if call.name == "ask_user"
        then dispatch_ask call
        else if one_of call.name read_tools
        then dispatch_read call
        else dispatch_action call
