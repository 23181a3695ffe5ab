-- ===== src/BlockAgent/Prompt.antt =====
-- The prompts of app/modules/session/block_agent.py: `objective_section`, `build_system_prompt` and
-- `_context_message`. The text of a section comes from the world.
use grafux_orchestrator.Prelude.{
  ◌<>◌, String, ◌==◌, Option, none, some, strip, lower, replace, if◌then◌else◌,
}
use grafux_orchestrator.Python.{or_text}
use grafux_orchestrator.BlockAgent.Policy.{describes}
use grafux_orchestrator.BlockAgent.Data.{Entry, system, Agent}

abbrev pub block_agent_default_section : String
block_agent_default_section = "block_agent_default"

-- `BLOCK_AGENT_SECTION.get(block_type)`
block_agent_section : String → Option String
block_agent_section block_type =
    if block_type == "spec_hdl"
    then some "block_agent_spec_hdl"
    else if block_type == "code_hdl"
    then some "block_agent_code_hdl"
    else if block_type == "testbench"
    then some "block_agent_testbench"
    else if block_type == "verilator"
    then some "block_agent_verilator"
    else none

module _ (get_system_prompt : String → String) where
  unfoldable pub objective_section : String → String
  unfolding block_agent_section strip lower
  objective_section block_type = elim (block_agent_section (lower (strip block_type))) [
    | none ↦ get_system_prompt block_agent_default_section
    | some section ↦
        or_text (get_system_prompt section) (get_system_prompt block_agent_default_section)
  ]

  unfoldable pub build_system_prompt : Agent → String
  unfolding objective_section replace describes strip
  build_system_prompt a =
      let named = replace (get_system_prompt "block_agent") "{BLOCK_NAME}" a.block_name in
      let typed = replace named "{BLOCK_TYPE}" a.block_type in
      let aimed = replace typed "{BLOCK_OBJECTIVE}" (objective_section a.block_type) in
      let allowed = replace aimed "{AUTONOMY}" (describes a.policy) in
      replace allowed "{TEAM_GOAL}"
        (or_text (strip a.goal) "(none given - work to your block's objective.)")

-- `_context_message`, where `self.canvas.diagram_context(budget=6000)` gives the text `canvas`
abbrev pub context_message : String → Entry
context_message canvas = system (
    "CURRENT CANVAS (refreshed each step; your block is marked ACTIVE):\n"
    <> or_text canvas "(the canvas is empty)")
