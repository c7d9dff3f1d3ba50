-- ===== src/Projection/Kinds.antt =====
-- runtime/storage/projector.py: the event types that the projector tells apart, and the names of the
-- job states.
use hermes_lab.Prelude.{String, Option, none, some, ◌∷◌, []}
use hermes_lab.Dict.{Dict, lookup}
use hermes_lab.JobState.{
  State, created, planning, executing, waiting_for_capacity, verifying, repairing, completed,
  blocked, failed, cancelled,
}

pub data Kind : Type 0 where
  job_created job_state_changed job_completed job_blocked job_failed job_cancelled
        job_waiting_for_capacity job_capacity_restored :
      Kind
  planning_started evidence_collected planning_generated planning_validated planning_failed : Kind
  task_created task_ready task_assigned task_started task_completed task_failed task_superseded
        task_cancelled task_rerouted task_reconciled task_requeued :
      Kind
  agent_started agent_finished agent_failed agent_timed_out agent_cancelled : Kind
  observation_created artifact_created verification_started verification_ended : Kind
  job_rehydrated execution_resumed other_kind : Kind

abbrev event_types : Dict Kind
event_types =
    ("job.created", job_created)
    ∷ ("job.state_changed", job_state_changed)
    ∷ ("job.completed", job_completed)
    ∷ ("job.blocked", job_blocked)
    ∷ ("job.failed", job_failed)
    ∷ ("job.cancelled", job_cancelled)
    ∷ ("planning.started", planning_started)
    ∷ ("repository.evidence_collected", evidence_collected)
    ∷ ("planning.generated", planning_generated)
    ∷ ("planning.validated", planning_validated)
    ∷ ("planning.failed", planning_failed)
    ∷ ("task.created", task_created)
    ∷ ("task.ready", task_ready)
    ∷ ("task.assigned", task_assigned)
    ∷ ("task.started", task_started)
    ∷ ("task.completed", task_completed)
    ∷ ("task.failed", task_failed)
    ∷ ("task.superseded", task_superseded)
    ∷ ("task.cancelled", task_cancelled)
    ∷ ("agent.started", agent_started)
    ∷ ("agent.finished", agent_finished)
    ∷ ("agent.failed", agent_failed)
    ∷ ("agent.timed_out", agent_timed_out)
    ∷ ("agent.cancelled", agent_cancelled)
    ∷ ("observation.created", observation_created)
    ∷ ("artifact.created", artifact_created)
    ∷ ("verification.started", verification_started)
    ∷ ("verification.passed", verification_ended)
    ∷ ("verification.failed", verification_ended)
    ∷ ("job.waiting_for_capacity", job_waiting_for_capacity)
    ∷ ("job.capacity_restored", job_capacity_restored)
    ∷ ("task.rerouted", task_rerouted)
    ∷ ("recovery.job_rehydrated", job_rehydrated)
    ∷ ("recovery.task_reconciled", task_reconciled)
    ∷ ("recovery.execution_resumed", execution_resumed)
    ∷ ("recovery.completed", execution_resumed)
    ∷ ("recovery.task_requeued", task_requeued)
    ∷ []

abbrev or_other : Option Kind → Kind
or_other none = other_kind
or_other (some k) = k

-- The branch of the `if`/`elif` chain that an event type selects.
unfoldable pub kind_of : String → Kind
unfolding lookup
kind_of s = or_other (lookup s event_types)

-- `JobState.value`
unfoldable pub state_name : State → String
state_name created = "created"
state_name planning = "planning"
state_name executing = "executing"
state_name waiting_for_capacity = "waiting_for_capacity"
state_name verifying = "verifying"
state_name repairing = "repairing"
state_name completed = "completed"
state_name blocked = "blocked"
state_name failed = "failed"
state_name cancelled = "cancelled"

abbrev states : Dict State
states =
    ("created", created)
    ∷ ("planning", planning)
    ∷ ("executing", executing)
    ∷ ("waiting_for_capacity", waiting_for_capacity)
    ∷ ("verifying", verifying)
    ∷ ("repairing", repairing)
    ∷ ("completed", completed)
    ∷ ("blocked", blocked)
    ∷ ("failed", failed)
    ∷ ("cancelled", cancelled)
    ∷ []

-- `JobState(value)`, none where it raises.
unfoldable pub state_of : String → Option State
unfolding lookup
state_of s = lookup s states
