-- ===== src/Workflow/Tests.antt =====
-- Services for tests, and the theorems on the workflow at concrete data.
use grafux_orchestrator.Prelude.{◌≡◌, refl, Bool, true, false, none, some, List, [], ◌∷◌}
use grafux_orchestrator.Python.{obj, end, ok, raised}
use grafux_orchestrator.Exec.Outcomes.{Returns}
use grafux_orchestrator.Workflow.{Call, human, ai, State, last_calls, code_in}
use grafux_orchestrator.Workflow.Nodes.{Services, mcp_node}
use grafux_orchestrator.Workflow.Nodes.Answers.{IsReliable, IsNamed, answers, mcp_node-answers}

abbrev calls : List Call
calls =
    record { name = "mcp_a"; args = obj "{}" end; id = some (some "1") }
    ∷ record { name = "mcp_b"; args = obj "{}" end; id = some (some "2") }
    ∷ []

abbrev asked : State
asked = record {
  execution_id = "e";
  org_id = "o";
  project_id = "p";
  workflow_id = none;
  messages = human "go" ∷ ai none calls ∷ [];
  current_node = "agent";
  tool_results = end;
  agent_memory = end;
  iteration = 1;
  metadata = end;
  error = none;
  cancelled = false;
}

-- Every tool fails; the flag is the state of the world.
abbrev failing : Services Bool
failing = record {
  exists = λ key w. (ok w, w);
  emit = λ id kind payload w. (ok tt, w);
  has_api_key = true;
  make_chat_model = λ model tools. ok tt;
  ainvoke = λ messages w. (raised "no model", w);
  uuid4 = λ w. "fresh";
  invoke_tool = λ name args org w. (raised "no tool", w);
  research = λ query w. (raised "no web", w);
  execute_code = λ code w. (raised "no sandbox", w);
  send_command = λ device command params w. (raised "no device", w);
  repr = λ s. s;
}

code_found : code_in (human "a ```python\nx = 1\n``` b" ∷ human "```" ∷ []) "" ≡ "x = 1"
unfolding code_in
code_found = refl

failing-IsReliable : IsReliable failing
failing-IsReliable = record { sends = λ id kind payload w. refl; runs = λ name args org w e. cc }

named : IsNamed (last_calls asked.messages) ("1" ∷ "2" ∷ [])
unfolding last_calls
named = (refl, (refl, tt))

mcp_node-answers_example :
    Returns (λ u. answers u.messages ≡ "1" ∷ "2" ∷ []) (mcp_node failing asked) false
mcp_node-answers_example =
    mcp_node-answers failing failing-IsReliable asked ("1" ∷ "2" ∷ []) false refl named
