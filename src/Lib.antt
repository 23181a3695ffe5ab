-- ===== src/Lib.antt =====
-- Grafux-orchestrator: the backend that drives AI agents on the blocks of a user's canvas.
--
-- The program is a FastAPI service. A session (app/modules/session) talks to one client over a
-- web socket; the client owns the canvas. A block agent (app/modules/session/block_agent.py) is a
-- loop that asks a language model for tool calls and carries them out on the canvas through a
-- `CanvasPort`, under a policy with budgets. app/modules/session/canvas_tools.py maps a tool call
-- to the action that the client receives.
--
-- Files
--   Prelude          names passed on from the library, Boolean tests, list and text helpers
--   Python           JSON values, `str()`, truth, `dict`, and results of fallible code
--   Exec             the monad of the coroutines: a state, and a result that is returned, raised or
--                    cancelled; Exec/Outcomes has rules for what an action may return or raise
--   Security         app/core/security.py and app/dependencies.py: `verify_jwt` with its caches, and
--                    the checks of requests, with Trust, Refusal and Issuer
--   Entitlements     app/core/entitlements.py: the gate of the block agents and its two caches; the
--                    failure policy is in Entitlements/Policy
--   CanvasTools      app/modules/session/canvas_tools.py: tool declarations by their names, and
--                    the mapping of calls to actions; CanvasTools/Laws has what an action keeps of
--                    a call, CanvasTools/Actions the actions of a turn
--   Workflow         app/modules/workflow/engine.py: the state of a graph run, routing and the end of
--                    a run; Workflow/Nodes has the node functions over the services they call
--   Tasks            app/modules/queue/tasks.py with the repository and the service that it writes
--                    through (app/modules/persistence/repositories.py,
--                    app/modules/workflow/service.py): the rows of the executions
--   Connections      app/modules/streaming/websocket.py: who listens to which execution
--   Coordinator      app/modules/agent/coordinator.py: the pairing of sub-tasks and results
--   BlockAgent       app/modules/session/block_agent.py, with the children
--     Policy         `AgentPolicy`, `from_client`, `describes`, `_tool_names`
--     Observation    `_render_observation`
--     Data           the fields of `BlockAgentLoop`, its transcript and messages, the world
--     Rules          `_deny`, `_is_expensive`, `_describe`, `stop`, `detach`, `resume_budget`
--     Seam           the awaits of the loop, `_step`, `_report_state`
--     Dispatch       `_dispatch`, `_dispatch_ask`, `_dispatch_read`
--     Prompt         `objective_section`, `build_system_prompt`, `_context_message`
--     Loop           `_loop`, `_announce_model`, `_finish`, `_wrap_up`, `run`
--     Induction      an induction principle over all that a run may do; Induction/Rounds carries it
--                    from the dispatch to `run`
--     Permission     what `_deny` promises of a call that it lets pass
--     Budget, Deletion, Reports, Verdict, Exemption, Consent: properties of runs
--     Pairing        the prompts of a run as transcripts, over Pairing/Rounds, Prompts and Runs
--   CanvasContext    app/modules/session/canvas_context.py: the canvas as text, within its budget
--   Session          app/modules/session/router.py, `_OrchestratorSession`, with the children
--     Requests       `_dispatch_client`, `_resolve_pending`, `_note_progress`, `_fail_pending`,
--                    `_await_client`; Requests/Waiting, Deadline and Outcomes have their properties
--     Agents         `_start_block_agent`, `_stop_block_agent`, `_on_agent_user_message` and the tasks
--                    of the runs; Agents/Custody, Sessions and Replaced have their properties
--     Port           `act`, `read_port`, `ask`, `_resolve_read_tool` as requests and replies
--     Turns          `_run_text_turn`: the data of a turn, the pieces of a streamed tool call and
--                    `_stamp_actions`; Turns/Loop has the actions, Turns/Pieces, Closing and Pairing
--                    the properties, over Turns/Speaking, Stamping and Asking
--   LanguageModel    app/core/llm.py, with the children
--     Attempt        coroutines that return, raise an exception with its class and status codes, or
--                    are cancelled
--     Provider       `resolve_provider`, `_strip_code_fences`, `_is_anthropic_auth_failure`
--     Transcript     `_to_openai_messages`, `_to_anthropic_messages`, `to_openai_tools`,
--                    `to_anthropic_tools`; Transcript/Coalescing has what the conversion achieves
--     Vendors        the clients, JSON and the clock, the latch, `_with_anthropic_fallback`
--     Chats          `_openai_chat`, `_anthropic_chat`, and the same with tools
--     Calls          `call_llm_text`, `call_llm_json`, `call_llm_tools`, `make_chat_model`
--     Latch, Honesty, RoundTrip: properties of calls and of turns
--
-- How the code is modelled
--   A loop's state is the record `Agent`, with the fields of `BlockAgentLoop`. Everything behind an
--   await is a parameter, the record `World`: the client, the language model, the clock. It may
--   answer anything, raise, or be cancelled, and after each await other tasks may have called
--   `stop` or `detach` (`settle`); the making of the canvas's text may raise as well. The requests that were really made stand in the trace of a
--   `Session`, the newest first, so that a property of what the loop does is a property of its
--   trace. `while True` is a recursion on fuel, with one round more than the policy has steps; a
--   round that goes on uses up a step, so this is enough. Times are in milliseconds; numbers are
--   natural numbers; strings are texts of code points.
--
--   The wait of a session for its client is run over an explicit list of messages with their times of
--   arrival. It has fuel for one pass per message and two more, which is enough. The agents of a
--   session are numbered objects in a heap, since a callback may outlive what it was made for; what
--   a session goes through is a list of steps: messages of the client, and the ends of tasks.
--
--   The other parts are modelled the same way, each over a record of the services that it calls:
--   Redis, PyJWT, the backend, LangGraph's update of the state, the engine as the task sees it. The
--   laws that a theorem needs of them (Redis keeps what it took, events can be sent) are named
--   hypotheses, which the tests meet with concrete services.
--
--   A text turn consults its world for each stream: the chunks that came, and whether the stream was
--   ended, broken off or cancelled. Its tool loop has the four passes of the source.
--
-- Not modelled: log lines, token counts, the voice relay of a session, the enrichment of created
-- blocks, the HTTP handlers, and the clients of the database and of other services; in
-- app/core/llm.py, the pool of SDK clients that is kept per event loop, so that asking a client is
-- one call.
mod Prelude
pub mod Python
pub mod Exec
pub mod Security
pub mod Entitlements
pub mod CanvasTools
pub mod CanvasContext
pub mod Workflow
pub mod Tasks
pub mod Connections
pub mod Coordinator
pub mod BlockAgent
pub mod LanguageModel
pub mod Session
