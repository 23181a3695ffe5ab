-- ===== src/BlockAgent/Data.antt =====
-- The data of app/modules/session/block_agent.py: `BlockAgentLoop`'s fields, its transcript, the
-- messages that it sends, and the world behind `CanvasPort`, the language model and the clock.
use grafux_orchestrator.Prelude.{ℕ, String, Bool, Option, List}
use grafux_orchestrator.Python.{Value, Fields, Outcome}
use grafux_orchestrator.BlockAgent.Policy.{AgentPolicy}

-- `ToolCall` and `ToolTurn` of app/core/llm.py. The loop does not read `usage` and `provider`.
pub record ToolCall : Type 0 where
  pub id : String
  pub name : String
  pub arguments : Fields

pub record ToolTurn : Type 0 where
  pub text : String
  pub tool_calls : List ToolCall
  pub stop_reason : String
  pub usage : Fields
  pub provider : String
  pub model : String
  pub raw_content : Value

-- An entry of `_messages`, by its role.
pub data Entry : Type 0 where
  user : (content : String) → Entry
  assistant : (content : String) → (calls : List ToolCall) → (raw : Value) → Entry
  tool : (id name content : String) → (is_error : Bool) → Entry
  system : (content : String) → Entry

pub data State : Type 0 where
  idle running finished stopped error : State

-- What the loop sends to the client. A step's `tool` is a tool's name and arguments, or `{}`.
pub data Message : Type 0 where
  agent_step :
      (block_id : String)
      → (seq : ℕ) → (kind text : String) → (tool : Option (String × Fields)) → Message
  agent_state :
      (block_id : String)
      → State
      → (summary goal : String) → (goal_met : Bool) → (steps_used steps_max : ℕ) → Message

-- `BlockAgentLoop`; `_messages`, `_seq` and so on without the underscore. Times in milliseconds.
pub record Agent : Type 0 where
  pub block_id : String
  pub block_name : String
  pub block_type : String
  pub policy : AgentPolicy
  pub model : Option String
  pub goal : String
  pub state : State
  pub summary : String
  pub goal_met : Bool
  pub steps_used : ℕ
  pub runs_used : ℕ
  pub expensive_runs_used : ℕ
  pub messages : List Entry
  pub seq : ℕ
  pub started_at : ℕ
  pub stopping : Bool
  pub detached : Bool

-- What other tasks did to the loop while it was waiting.
pub data Interrupt : Type 0 where
  quiet stop detach : Interrupt

-- The world in a state `W`: the four coroutines of `CanvasPort`, its diagram, the language model,
-- the clock, the prompts, and what other tasks did up to now. Any await may raise, and so may the
-- making of the diagram.
pub record World (W : Type 0) : Type 0 where
  pub emit : Message → W → Outcome (Unit {0}) × W
  pub act : Fields → Bool → W → Outcome Fields × W
  pub read_port : String → String → String → W → Outcome String × W
  pub ask : String → String → W → Outcome String × W
  pub call_llm_tools : String → List Entry → List String → Option String → W → Outcome ToolTurn × W
  pub diagram_context : W → Outcome String
  pub monotonic : W → ℕ
  pub interrupt : W → Interrupt
  pub system_prompt : String → String

-- What the loop asked of the world, and what other tasks did meanwhile.
pub data Event : Type 0 where
  interrupted : Interrupt → Event
  emitted : Message → Event
  acted : Fields → Bool → Event
  read : String → String → String → Event
  asked : String → String → Event
  prompted : List Entry → List String → Event

-- The loop, the world, and what happened so far, the newest first.
pub record Session (W : Type 0) : Type 0 where
  pub agent : Agent
  pub world : W
  pub trace : List Event
