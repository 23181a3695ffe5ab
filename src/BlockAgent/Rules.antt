-- ===== src/BlockAgent/Rules.antt =====
-- What `BlockAgentLoop` of app/modules/session/block_agent.py decides with no await: `stop`, `detach`,
-- `resume_budget`, `_deny`, `_is_expensive` and `_describe`.
use grafux_orchestrator.Prelude.{
  suc, ◌<>◌, String, ◌==◌, Bool, true, false, not, ◌&&◌, Option, none, some, List, [], ◌∷◌, show,
  replace, leb, one_of, if◌then◌else◌,
}
use grafux_orchestrator.Python.{text, Fields, get_or, get_truthy, to_str, word, or_text}
use grafux_orchestrator.BlockAgent.Policy.{expensive_block_types}
use grafux_orchestrator.BlockAgent.Data.{
  ToolCall, Entry, tool, Agent, Interrupt, quiet, stop, detach,
}

abbrev pub run_tools : List String
run_tools = "run_block" ∷ "regenerate_block" ∷ []

abbrev pub read_tools : List String
read_tools = "read_port_value" ∷ []

-- `stop`, `detach` and `resume_budget`
unfoldable pub stop_agent : Agent → Agent
stop_agent a = record a { stopping = true }

unfoldable pub detach_agent : Agent → Agent
detach_agent a = record a { stopping = true; detached = true }

unfoldable pub resume_budget : Agent → Agent
resume_budget a = record a {
  stopping = false;
  steps_used = 0;
  runs_used = 0;
  expensive_runs_used = 0;
  goal_met = false;
  summary = "";
}

unfoldable pub settle : Interrupt → Agent → Agent
unfolding stop_agent detach_agent
settle quiet a = a
settle stop a = stop_agent a
settle detach a = detach_agent a

-- `_result`
abbrev pub result : ToolCall → String → Bool → Entry
result call content is_error = tool call.id call.name content is_error

-- `_is_expensive`; `action or call.arguments` is the arguments where there is no action.
unfoldable pub is_expensive : Agent → ToolCall → Option Fields → Bool
unfolding word
is_expensive a call action =
    let target = word "target_block" (elim action [ none ↦ call.arguments | some fs ↦ fs ]) in
    if not (one_of call.name run_tools)
    then false
    else if not (target == "") && not (target == a.block_name)
    then false
    else one_of a.block_type expensive_block_types

-- `_deny`: why the call may not proceed, or the empty text.
unfoldable pub deny_run : Agent → ToolCall → String
deny_run a call =
    if not a.policy.may_run
    then "You may not run blocks."
    else if leb a.policy.max_block_runs a.runs_used
    then "You have used all "
      <> (show a.policy.max_block_runs
          <> " runs. Finish with what you have, and say what is still unverified.")
    else if is_expensive a call none && not a.policy.may_run_expensive
    then "That block runs on a paid cloud machine and you may not start one. Call ask_user if it needs to run."
    else if is_expensive a call none && leb a.policy.max_expensive_runs a.expensive_runs_used
    then "You have used all "
      <> (show a.policy.max_expensive_runs
          <> " cloud runs. Report what you have rather than starting another.")
    else ""

unfoldable pub deny : Agent → ToolCall → String
deny a call =
    let refusal = if one_of call.name run_tools then deny_run a call else "" in
    if not (refusal == "")
    then refusal
    else if call.name == "delete_block" && not a.policy.may_delete
    then "Deleting a block is permanent and is not yours to do. Call ask_user if you believe it should go."
    else ""

-- `a.get(key, "")` and `a.get("target_block") or self.block_name`, in an f-string
abbrev shown : String → Fields → String
shown key args = to_str (get_or key (text "") args)

abbrev target_or_own : Agent → Fields → String
target_or_own a args = or_text (to_str (get_truthy "target_block" args)) a.block_name

-- `_describe`
unfoldable pub describe : Agent → ToolCall → String
unfolding to_str get_or get_truthy replace
describe a call =
    let args = call.arguments in
    if call.name == "run_block"
    then "Running \"" <> (target_or_own a args <> "\"")
    else if call.name == "regenerate_block"
    then "Regenerating \"" <> (target_or_own a args <> "\"")
    else if call.name == "set_port_value"
    then "Setting " <> (shown "direction" args <> (" port \"" <> (shown "port_name" args <> "\"")))
    else if call.name == "read_port_value"
    then "Reading " <> (target_or_own a args <> ("." <> shown "port_name" args))
    else if call.name == "connect_ports"
    then "Wiring "
      <> (shown "from_block" args
          <> ("."
              <> (shown "from_port" args
                  <> (" to " <> (shown "to_block" args <> ("." <> shown "to_port" args))))))
    else if call.name == "create_block"
    then "Creating a "
      <> (shown "block_type" args <> (" block \"" <> (shown "block_name" args <> "\"")))
    else if call.name == "ask_user"
    then "Asking you a question"
    else replace call.name "_" " "

-- The two counters of a run that is started.
unfoldable pub charge : ToolCall → Bool → Agent → Agent
charge call expensive a =
    if one_of call.name run_tools
    then record a {
      runs_used = suc a.runs_used;
      expensive_runs_used = if expensive then suc a.expensive_runs_used else a.expensive_runs_used;
    }
    else a
