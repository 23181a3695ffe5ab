-- ===== src/Coordinator.antt =====
-- `MultiAgentCoordinator.run` of app/modules/agent/coordinator.py, from the sub-tasks to the outputs.
pub mod Pairing
mod Tests
use grafux_orchestrator.Prelude.{
  ◌<>◌, String, Bool, true, false, not, ◌&&◌, Option, none, some, List, [], ◌∷◌, ◌==◌, one_of,
  prefix, map, if◌then◌else◌,
}

-- A sub-task of the decomposition. `agent_id` may be missing.
pub record SubTask : Type 0 where
  pub agent_id : Option String
  pub task : String

-- A result of `gather`: the output of an agent, or the exception that it ended with.
pub data Answer : Type 0 where
  output : String → Answer
  exception : String → Answer

-- `agent_id and agent_id in agent_map`
unfoldable pub is_known : List String → SubTask → Bool
is_known agents t = elim t.agent_id [ none ↦ false | some id ↦ not (id == "") && one_of id agents ]

-- The sub-tasks for which an agent is started.
unfoldable pub started : List String → List SubTask → List SubTask
unfolding is_known
started agents [] = []
started agents (t ∷ ts) =
    let rest = started agents ts in if is_known agents t then t ∷ rest else rest

-- `sub_task.get('agent_id')` in an f-string
abbrev pub name_of : SubTask → String
name_of t = elim t.agent_id [ none ↦ "None" | some id ↦ id ]

-- What is reported of one result.
unfoldable pub report : SubTask → Answer → String
unfolding prefix
report t (output content) = "Agent " <> (name_of t <> (": " <> prefix 1000 content))
report t (exception e) = "Agent " <> (name_of t <> (": ERROR — " <> e))

-- The loop over `zip(sub_tasks, results, strict=False)`
unfoldable pub outputs_of : List SubTask → List (Answer) → List String
unfolding report
outputs_of [] results = []
outputs_of (t ∷ ts) [] = []
outputs_of (t ∷ ts) (r ∷ rs) = report t r ∷ outputs_of ts rs

-- `gather` gives the results of the agents in the order in which they were started.
unfoldable pub outputs : List String → (SubTask → Answer) → List SubTask → List String
unfolding started outputs_of
outputs agents run_agent sub_tasks = outputs_of sub_tasks (map run_agent (started agents sub_tasks))
