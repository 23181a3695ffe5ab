-- ===== src/Workflow/Nodes.antt =====
-- The node functions of app/modules/workflow/engine.py.
pub mod Answers
use grafux_orchestrator.Prelude.{
  prefix, ℕ, zero, suc, ◌<>◌, String, Bool, true, false, not, ◌&&◌, ◌||◌, Option, none, some, List,
  [], ◌∷◌, ◌++◌, ◌==◌, if◌then◌else◌,
}
use grafux_orchestrator.Python.{
  Value, null, text, num, len, arr, nil, obj, Fields, end, field, truthy, to_str, get, get_or, put,
  Outcome, ok, raised, cancelled,
}
use grafux_orchestrator.Exec.{Exec, reads, pure, lift, gets, skip, try_except, ◌>>=◌, ◌>>◌}
use grafux_orchestrator.Workflow.{
  Call, Message, ai, tool, human, State, Update, nothing, or_else, last_calls, last_user_query,
  code_in,
}

-- What the nodes use: Redis and its channels, the language model with its tools bound, the MCP
-- client, and the pipelines of research, sandbox and devices. Each may raise. A result is a `dict`
-- with the text that `str()` makes of it.
pub record Services (W : Type 0) : Type 0 where
  pub exists : String → W → Outcome Bool × W
  pub emit : String → String → Fields → W → Outcome (Unit {0}) × W
  pub has_api_key : Bool
  pub make_chat_model : Value → Value → Outcome (Unit {0})
  pub ainvoke : List Message → W → Outcome (Option String × List Call) × W
  pub uuid4 : W → String
  pub invoke_tool : String → Value → String → W → Outcome Value × W
  pub research : Value → W → Outcome (String × Fields) × W
  pub execute_code : Value → W → Outcome (String × Fields) × W
  pub send_command : Value → Value → Value → W → Outcome (String × Fields) × W
  pub repr : String → String

module _ {W : Type 0} (services : Services W) where
  -- `_check_cancelled`
  abbrev pub check_cancelled : String → Exec W Bool
  check_cancelled execution_id = services.exists ("cancel:" <> execution_id)

  -- `emit_log`, with the keyword arguments that are added to the payload
  abbrev pub emit_log : String → String → String → Fields → Exec W (Unit {0})
  emit_log execution_id message level extra =
      services.emit execution_id "execution.log"
        (field "message" (text message) (field "level" (text level) extra))

  abbrev pub emit_agent_thought : String → String → Exec W (Unit {0})
  emit_agent_thought execution_id thought =
      services.emit execution_id "agent.thought"
        (field "agent_id" (text "agent") (field "thought" (text thought) end))

  -- `cancellable_node`
  unfoldable pub cancellable_node : (State → Exec W Update) → State → Exec W Update
  unfolding reads ◌>>=◌
  cancellable_node fn state =
      let go_on = fn state in
      do
        stop ← check_cancelled state.execution_id
        if stop then pure (record nothing { cancelled = true }) else go_on

  -- The error that a node reports and returns.
  unfoldable pub failed : State → String → Exec W Update
  unfolding reads ◌>>=◌
  failed state error = do
    emit_log state.execution_id error "error" end
    pure (record nothing { error = some error })

  -- The guarded part of `agent_node`.
  unfoldable pub consult_model : State → Exec W Update
  unfolding prefix reads ◌>>=◌
  consult_model state = do
    response ← services.ainvoke state.messages
    emit_agent_thought state.execution_id
        (elim response.0 [ some content ↦ prefix 500 content | none ↦ "..." ])
    pure (record nothing {
      messages = ai response.0 response.1 ∷ [];
      iteration = some (suc state.iteration);
    })

  -- `agent_node`
  unfoldable pub agent_node : State → Exec W Update
  unfolding consult_model failed try_except get_or reads ◌>>=◌
  agent_node state = do
    stop ← check_cancelled state.execution_id
    if stop
        then pure (record nothing { cancelled = true; error = some "Execution cancelled by user" })
        else if not services.has_api_key
        then failed state "No LLM API key configured"
        else (do
          emit_log state.execution_id "Agent node: calling LLM" "info"
              (field "node" (text "agent") end)
          emit_agent_thought state.execution_id "Thinking..."
          lift (
              services.make_chat_model (get_or "llm_model" null state.metadata)
                (get_or "tools" (arr "[]" nil) state.metadata))
          try_except (consult_model state) (λ exc. failed state ("LLM call failed: " <> exc)))

  -- `except Exception` of `mcp_node`
  unfoldable pub report_error :
      State → Call → String → List Message → String → Exec W (List Message)
  unfolding reads ◌>>=◌
  report_error state call id tool_messages exc = do
    services.emit state.execution_id "mcp.error"
        (field "tool_name" (text call.name) (field "error" (text exc) end))
    pure (
        tool_messages
        ++ tool ("MCP tool " <> (services.repr call.name <> (" failed: " <> exc))) id ∷ [])

  -- The messages with a result appended. It stays appended if its event cannot be sent.
  unfoldable pub keep_result : State → Call → String → List Message → Value → Exec W (List Message)
  unfolding report_error to_str try_except reads ◌>>=◌
  keep_result state call id tool_messages result =
      let kept = tool_messages ++ tool (to_str result) id ∷ [] in
      do
        unsent ←
            try_except
              (do
                services.emit state.execution_id "mcp.result"
                    (field "tool_name" (text call.name) (field "result" result end))
                pure none)
              (λ exc. pure (some exc))
        elim unsent [ none ↦ pure kept | some exc ↦ report_error state call id kept exc ]

  -- What came of an attempt.
  unfoldable pub record_attempt :
      State → Call → String → List Message → Outcome Value → Exec W (List Message)
  unfolding keep_result report_error reads
  record_attempt state call id tool_messages (ok result) =
      keep_result state call id tool_messages result
  record_attempt state call id tool_messages (raised exc) =
      report_error state call id tool_messages exc
  record_attempt state call id tool_messages cancelled = lift cancelled

  -- The same with an id that may be None, under which no tool message can be made: neither that of
  -- the result nor, in the handler, that of the failure.
  unfoldable pub answer_attempt :
      State → Call → Option String → List Message → Outcome Value → Exec W (List Message)
  unfolding record_attempt reads
  answer_attempt state call (some id) tool_messages attempt =
      record_attempt state call id tool_messages attempt
  answer_attempt state call none tool_messages cancelled = lift cancelled
  answer_attempt state call none tool_messages attempt =
      lift (raised "1 validation error for ToolMessage")

  -- One turn of the loop of `mcp_node`.
  unfoldable pub invoke_call : State → Call → List Message → Exec W (List Message)
  unfolding answer_attempt try_except reads ◌>>=◌
  invoke_call state call tool_messages = do
    fresh ← gets services.uuid4
    let id = or_else call.id (some fresh)
    services.emit state.execution_id "mcp.invocation"
        (field "tool_name" (text call.name) (field "input" call.args end))
    attempt ←
        try_except
          (do result ← services.invoke_tool call.name call.args state.org_id; pure (ok result))
          (λ exc. pure (raised exc))
    answer_attempt state call id tool_messages attempt

  unfoldable pub invoke_calls : State → List Call → List Message → Exec W (List Message)
  unfolding invoke_call reads ◌>>=◌
  invoke_calls state [] tool_messages = pure tool_messages
  invoke_calls state (call ∷ calls) tool_messages =
      let rest = invoke_calls state calls in
      do more ← invoke_call state call tool_messages; rest more

  -- `mcp_node`
  unfoldable pub invoke_all : State → List Call → Exec W Update
  unfolding invoke_calls reads ◌>>=◌
  invoke_all state [] = pure nothing
  invoke_all state (call ∷ calls) = do
    tool_messages ← invoke_calls state (call ∷ calls) []
    pure (record nothing { messages = tool_messages })

  unfoldable pub mcp_node : State → Exec W Update
  unfolding cancellable_node invoke_all last_calls
  mcp_node = cancellable_node (λ state. invoke_all state (last_calls state.messages))

  -- `research_node`
  unfoldable pub research_node : State → Exec W Update
  unfolding cancellable_node failed last_user_query len get_or truthy try_except put to_str reads
      ◌>>=◌
  research_node = cancellable_node (λ state.
      let given = get_or "research_query" null state.metadata in
      let query = if truthy given then given else text (last_user_query state.messages "") in
      if not (truthy query) then pure nothing else do
        services.emit state.execution_id "research.started" (field "query" query end)
        try_except
            (do
              result ← services.research query
              let summary = to_str (get_or "summary" (text "No summary available") result.1)
              sources ← lift (len (get_or "sources" (arr "[]" nil) result.1))
              services.emit state.execution_id "research.complete"
                  (field "query" query (field "sources_count" (num sources) end))
              pure (record nothing {
                messages = tool summary "research" ∷ [];
                tool_results = some (put "research" (obj result.0 result.1) state.tool_results);
              }))
            (λ exc. do
              emit_log state.execution_id ("Research failed: " <> exc) "error" end
              pure (record nothing { error = some exc })))

  -- `sandbox_node`
  unfoldable pub sandbox_node : State → Exec W Update
  unfolding cancellable_node code_in prefix len get_or truthy try_except put to_str reads ◌>>=◌
  sandbox_node = cancellable_node (λ state.
      let given = get_or "code_to_execute" null state.metadata in
      let code = if truthy given then given else text (code_in state.messages "") in
      if not (truthy code) then pure nothing else do
        size ← lift (len code)
        services.emit state.execution_id "sandbox.started" (field "code_length" (num size) end)
        try_except
            (do
              result ← services.execute_code code
              services.emit state.execution_id "sandbox.complete"
                  (field "exit_code" (get_or "exit_code" null result.1) end)
              let stdout = get_or "stdout" (text "") result.1
              let output = if truthy stdout then stdout else get_or "stderr" (text "") result.1
              pure (record nothing {
                messages = tool (prefix 4000 (to_str output)) "sandbox" ∷ [];
                tool_results = some (put "sandbox" (obj result.0 result.1) state.tool_results);
              }))
            (λ exc. do
              emit_log state.execution_id ("Sandbox failed: " <> exc) "error" end
              pure (record nothing { error = some exc })))

  -- `device_node`
  unfoldable pub device_node : State → Exec W Update
  unfolding cancellable_node get_or truthy try_except put to_str reads ◌>>=◌
  device_node = cancellable_node (λ state.
      let device_id = get_or "device_id" null state.metadata in
      let command = get_or "device_command" null state.metadata in
      if not (truthy device_id) || not (truthy command) then pure nothing else do
        services.emit state.execution_id "device.command_sent"
            (field "device_id" device_id (field "command" command end))
        try_except
            (do
              result ←
                  services.send_command device_id command
                    (get_or "device_params" (obj "{}" end) state.metadata)
              pure (record nothing {
                messages = tool result.0 "device" ∷ [];
                tool_results = some (put "device" (obj result.0 result.1) state.tool_results);
              }))
            (λ exc. do
              emit_log state.execution_id ("Device command failed: " <> exc) "error" end
              pure (record nothing { error = some exc })))
