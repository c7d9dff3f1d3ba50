-- ===== src/Agents/Defs.antt =====
-- personas/agent_state_reducer.py: `AgentStateReducer`, with `set_agent_status` of
-- personas/agent_service.py and `normalize_agent_id` of capabilities/normalization.py. `strip` and
-- `lower` are the methods of Python's texts. The record of models that `agent.started` feeds is
-- not modelled.
use Prim.Native.String.{◌++◌}
use hermes_lab.Prelude.{
  String, Option, none, some, [], ◌∷◌, Bool, true, false, ◌==◌, ◌||◌, if◌then◌else◌,
}
use hermes_lab.Dict.{Dict, lookup, insert, remove}

pub data AgentStatus : Type 0 where
  running idle waiting busy error : AgentStatus

-- The kinds of events that the reducer tells apart. `phase_other` is any other kind that starts
-- with "phase.".
pub data Kind : Type 0 where
  phase_started phase_completed phase_failed phase_other agent_started agent_finished
        agent_cancelled agent_failed agent_timed_out agent_waiting agent_busy other_kind :
      Kind

-- The arguments of `apply`, with the entries of the metadata that it reads. An order is a number
-- from 1 on, written as a text.
pub record AgentEvent : Type 0 where
  pub source_id : String
  pub kind : Kind
  pub detail : String
  pub job_id : Option String
  pub meta_job : Option String
  pub meta_order : Option String
  pub meta_phase : Option String
  pub meta_task : Option String

pub record Agents : Type 0 where
  pub runtime_status : Dict AgentStatus
  pub runtime_tasks : Dict String
  pub running_phases : Dict (Dict String)

-- `a or b`
abbrev pub or_text : Option String → String → String
or_text none other = other
or_text (some s) other = if s == "" then other else s

abbrev phases_or_none : Option (Dict String) → Dict String
phases_or_none none = []
phases_or_none (some d) = d

abbrev pub phases_of : String → Agents → Dict String
phases_of id a = phases_or_none (lookup id a.running_phases)

abbrev pub is_nonempty : Dict String → Bool
is_nonempty [] = false
is_nonempty (e ∷ d) = true

abbrev pub first_task : Dict String → Option String
first_task [] = none
first_task ((k, v) ∷ d) = some v

abbrev ends_task : AgentStatus → Bool
ends_task idle = true
ends_task error = true
ends_task _ = false

module _ (strip lower : String → String) where
  unfoldable pub normalize_agent_id : String → String
  normalize_agent_id id =
      let n = lower (strip id) in
      if id == ""
      then "unknown"
      else if n == "antigravity" || n == "gemini" || n == "agy"
      then "gemini"
      else n

  abbrev task_entry : String → AgentStatus → Option String → Dict String → Dict String
  task_entry id status none tasks = if ends_task status then remove id tasks else tasks
  task_entry id status (some t) tasks = insert id t tasks

  unfoldable pub set_agent_status : String → AgentStatus → Option String → Agents → Agents
  unfolding normalize_agent_id
  set_agent_status id status task a =
      let n = normalize_agent_id id in
      record a {
        runtime_status = insert n status a.runtime_status;
        runtime_tasks = task_entry n status task a.runtime_tasks;
      }

  -- `f"{job}:{order or phase}"`
  unfoldable pub phase_key : AgentEvent → String
  phase_key e =
      or_text e.job_id (or_text e.meta_job "")
      ++ ":"
      ++ or_text e.meta_order (or_text e.meta_phase "")

  abbrev store : String → Dict String → Agents → Agents
  store id phases a = record a { running_phases = insert id phases a.running_phases }

  unfoldable pub after_completed : String → Dict String → Agents → Agents
  unfolding set_agent_status
  after_completed id phases a =
      if is_nonempty phases
      then set_agent_status id running (first_task phases) a
      else set_agent_status id idle none a

  -- The branch of the kinds that start with "phase.", at the normalized id.
  unfoldable pub apply_phase : Kind → String → AgentEvent → Agents → Agents
  unfolding set_agent_status phase_key after_completed
  apply_phase phase_started id e a =
      let name = or_text e.meta_phase (or_text (some e.detail) "Executing phase") in
      set_agent_status id running (some name)
        (store id (insert (phase_key e) name (phases_of id a)) a)
  apply_phase phase_completed id e a =
      let phases = remove (phase_key e) (phases_of id a) in
      after_completed id phases (store id phases a)
  apply_phase phase_failed id e a =
      set_agent_status id error none (store id (remove (phase_key e) (phases_of id a)) a)
  apply_phase _ id e a = store id (phases_of id a) a

  -- The chain of the kinds that start with "agent.", at the normalized id.
  unfoldable pub apply_kind : Kind → String → AgentEvent → Agents → Agents
  unfolding set_agent_status apply_phase
  apply_kind agent_started id e a =
      set_agent_status id running
        (some (
          or_text e.meta_task
            (or_text e.meta_phase (or_text (some e.detail) "Executing assigned task"))))
        a
  apply_kind agent_finished id e a =
      if is_nonempty (phases_of id a) then a else set_agent_status id idle none a
  apply_kind agent_cancelled id e a =
      set_agent_status id idle none (record a { running_phases = remove id a.running_phases })
  apply_kind agent_failed id e a = set_agent_status id error none a
  apply_kind agent_timed_out id e a = set_agent_status id error none a
  apply_kind agent_waiting id e a =
      set_agent_status id waiting (some (or_text e.meta_task e.detail)) a
  apply_kind agent_busy id e a = set_agent_status id busy (some (or_text e.meta_task e.detail)) a
  apply_kind other_kind id e a = a
  apply_kind k id e a = apply_phase k id e a

  -- `apply`
  unfoldable pub apply_event : AgentEvent → Agents → Agents
  unfolding normalize_agent_id apply_kind
  apply_event e a = apply_kind e.kind (normalize_agent_id e.source_id) e a
