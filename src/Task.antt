-- ===== src/Task.antt =====
-- runtime/task_graph.py: `TaskStatus` and `TaskNode`.
-- A timestamp is the count of microseconds since the epoch that its ISO text stands for; the code
-- only tests such a text for presence. `Value` is what `Dict[str, Any]` holds, less the floats.
use hermes_lab.Prelude.{ℕ, String, Option, List, Bool, true, false}
use hermes_lab.Dict.{Dict}

mutual
  pub data Value : Type 0 where
    null : Value
    flag : Bool → Value
    number : ℕ → Value
    text : String → Value
    items : Items → Value
    object : Fields → Value

  pub data Items : Type 0 where
    nil : Items
    cons : Value → Items → Items

  pub data Fields : Type 0 where
    end : Fields
    field : String → Value → Fields → Fields

pub data TaskStatus : Type 0 where
  pending ready running succeeded failed blocked cancelled superseded : TaskStatus

pub record TaskNode : Type 0 where
  pub task_id : String
  pub job_id : String
  pub description : String
  pub status : TaskStatus
  pub dependencies : List String
  pub required_capabilities : List String
  pub assigned_actor : Option String
  pub parent_task_id : Option String
  pub created_at : ℕ
  pub started_at : Option ℕ
  pub completed_at : Option ℕ
  pub attempt : ℕ
  pub max_attempts : ℕ
  pub metadata : Dict Value
  pub artifact_refs : List Value
  pub error : Option Value
  pub superseded_by : Option String
  pub supersede_reason : Option String

-- TaskNode.is_active
unfoldable pub is_active : TaskStatus → Bool
is_active pending = true
is_active ready = true
is_active running = true
is_active _ = false

-- TaskNode.is_terminal
unfoldable pub is_terminal : TaskStatus → Bool
is_terminal succeeded = true
is_terminal failed = true
is_terminal cancelled = true
is_terminal superseded = true
is_terminal _ = false

-- Equality tests with one status.
abbrev pub is_pending : TaskStatus → Bool
is_pending pending = true
is_pending _ = false

abbrev pub is_ready : TaskStatus → Bool
is_ready ready = true
is_ready _ = false

abbrev pub is_running : TaskStatus → Bool
is_running running = true
is_running _ = false

abbrev pub is_succeeded : TaskStatus → Bool
is_succeeded succeeded = true
is_succeeded _ = false

abbrev pub is_failed : TaskStatus → Bool
is_failed failed = true
is_failed _ = false

abbrev pub is_superseded : TaskStatus → Bool
is_superseded superseded = true
is_superseded _ = false
