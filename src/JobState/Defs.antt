-- ===== src/JobState/Defs.antt =====
-- runtime/job_state.py. `now` is the time that the method reads; a raise leaves the record alone.
-- The event that a transition emits is an effect of the bridge and is not modelled.
use hermes_lab.Prelude.{
  ℕ, ◌+◌, String, Option, List, [], ◌∷◌, Bool, true, false, eqb, if◌then◌else◌, Result, or_now, ok,
  err, value_error,
}
use hermes_lab.Dict.{Dict, insert}
use hermes_lab.Task.{Value}

pub data State : Type 0 where
  created planning executing waiting_for_capacity verifying repairing completed blocked failed
        cancelled :
      State

-- LEGAL_JOB_TRANSITIONS: is the second state in the set of the first?
unfoldable pub legal : State → State → Bool
legal created planning = true
legal created cancelled = true
legal created failed = true
legal planning executing = true
legal planning waiting_for_capacity = true
legal planning blocked = true
legal planning failed = true
legal planning cancelled = true
legal executing verifying = true
legal executing planning = true
legal executing waiting_for_capacity = true
legal executing repairing = true
legal executing blocked = true
legal executing failed = true
legal executing cancelled = true
legal waiting_for_capacity executing = true
legal waiting_for_capacity planning = true
legal waiting_for_capacity blocked = true
legal waiting_for_capacity failed = true
legal waiting_for_capacity cancelled = true
legal verifying completed = true
legal verifying repairing = true
legal verifying waiting_for_capacity = true
legal verifying blocked = true
legal verifying failed = true
legal verifying cancelled = true
legal repairing executing = true
legal repairing planning = true
legal repairing waiting_for_capacity = true
legal repairing blocked = true
legal repairing failed = true
legal repairing cancelled = true
legal _ _ = false

-- TERMINAL_JOB_STATES
unfoldable pub is_terminal_state : State → Bool
is_terminal_state completed = true
is_terminal_state blocked = true
is_terminal_state failed = true
is_terminal_state cancelled = true
is_terminal_state _ = false

pub record JobRecord : Type 0 where
  pub job_id : String
  pub goal : String
  pub title : Option String
  pub state : State
  pub repository : Option String
  pub branch : Option String
  pub priority : String
  pub created_at : ℕ
  pub started_at : Option ℕ
  pub completed_at : Option ℕ
  pub current_phase : Option String
  pub blocked_reason : Option Value
  pub failure_reason : Option Value
  pub replan_count : ℕ
  pub repair_count : ℕ
  pub assigned_agents : List String
  pub metadata : Dict Value

unfoldable pub is_terminal : JobRecord → Bool
unfolding is_terminal_state
is_terminal j = is_terminal_state j.state

-- `==` on two states, by the place of each in the enum.
abbrev pub place : State → ℕ
place created = 0
place planning = 1
place executing = 2
place waiting_for_capacity = 3
place verifying = 4
place repairing = 5
place completed = 6
place blocked = 7
place failed = 8
place cancelled = 9

abbrev pub state_eq : State → State → Bool
state_eq a b = eqb (place a) (place b)

-- The first `if` after the write of `state`: a job that leaves CREATED for work has started.
abbrev pub starts : State → State → Bool
starts created planning = true
starts created executing = true
starts _ _ = false

-- The `if`/`elif` chain on the target.
abbrev pub account : State → State → Option Value → JobRecord → JobRecord
account previous blocked reason j = record j { blocked_reason = reason }
account previous failed reason j = record j { failure_reason = reason }
account previous repairing reason j = record j { repair_count = j.repair_count + 1 }
account executing planning reason j = record j { replan_count = j.replan_count + 1 }
account repairing planning reason j = record j { replan_count = j.replan_count + 1 }
account previous target reason j = j

abbrev merge : Dict Value → Dict Value → Dict Value
merge old [] = old
merge old ((k, v) ∷ new) = merge (insert k v old) new

-- The writes of a transition that is legal.
unfoldable pub enter : ℕ → State → Option Value → Dict Value → JobRecord → JobRecord
unfolding is_terminal_state
enter now target reason metadata j =
    let moved = record j {
      state = target;
      started_at = if starts j.state target then or_now j.started_at now else j.started_at;
      completed_at = if is_terminal_state target then or_now j.completed_at now else j.completed_at;
      metadata = merge j.metadata metadata;
    } in
    account j.state target reason moved

unfoldable pub transition_to : ℕ → State → Option Value → Dict Value → JobRecord → Result JobRecord
unfolding legal enter
transition_to now target reason metadata j =
    if state_eq target j.state
    then ok j
    else if legal j.state target
    then ok (enter now target reason metadata j)
    else err value_error

-- The attributes that `snapshot` copies.
pub record Snapshot : Type 0 where
  pub state : State
  pub started_at : Option ℕ
  pub completed_at : Option ℕ
  pub current_phase : Option String
  pub blocked_reason : Option Value
  pub failure_reason : Option Value
  pub replan_count : ℕ
  pub repair_count : ℕ
  pub assigned_agents : List String
  pub metadata : Dict Value

unfoldable pub snapshot : JobRecord → Snapshot
snapshot j = record {
  state = j.state;
  started_at = j.started_at;
  completed_at = j.completed_at;
  current_phase = j.current_phase;
  blocked_reason = j.blocked_reason;
  failure_reason = j.failure_reason;
  replan_count = j.replan_count;
  repair_count = j.repair_count;
  assigned_agents = j.assigned_agents;
  metadata = j.metadata;
}

unfoldable pub restore : Snapshot → JobRecord → JobRecord
restore s j = record j {
  state = s.state;
  started_at = s.started_at;
  completed_at = s.completed_at;
  current_phase = s.current_phase;
  blocked_reason = s.blocked_reason;
  failure_reason = s.failure_reason;
  replan_count = s.replan_count;
  repair_count = s.repair_count;
  assigned_agents = s.assigned_agents;
  metadata = s.metadata;
}
