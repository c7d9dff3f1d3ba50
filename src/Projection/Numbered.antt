-- ===== src/Projection/Numbered.antt =====
-- runtime/storage/projector.py: the state that is projected from the stored events of a job.
use hermes_lab.Prelude.{ℕ, suc, ◌≡◌, refl, ap, ◌∙◌, String, List, [], ◌∷◌}
use hermes_lab.EventStore.{stored_as}
use hermes_lab.EventStore.Sequences.{IsNumbered}
use hermes_lab.Projection.Payload.{Event, Python}
use hermes_lab.Projection.Kinds
use hermes_lab.Projection.Kinds.{Kind, kind_of}
use hermes_lab.Projection.Jobs
use hermes_lab.Projection.Tasks
use hermes_lab.Projection.Runs
use hermes_lab.Projection.Jobs.{on_created, blank_job, update, add_metadata}
use hermes_lab.Projection.Defs.{Fold, apply_kind, replay}

-- The events as the store returns them: numbered from 1 on, in the order they were written.
abbrev pub number_from : ℕ → List Event → List Event
number_from k [] = []
number_from k (e ∷ es) = stored_as (suc k) e ∷ number_from (suc k) es

pub number_from-IsNumbered : (k : ℕ) (es : List Event) → IsNumbered k (number_from k es)
number_from-IsNumbered k [] = tt
number_from-IsNumbered k (e ∷ es) = (refl, number_from-IsNumbered (suc k) es)

-- No handler reads the sequence of its event.
apply_kind-stored_as :
    (py : Python) (id : String) (k : Kind) (n : ℕ) (e : Event) (f : Fold)
    → apply_kind py id k (stored_as n e) f ≡ apply_kind py id k e f
unfolding apply_kind Jobs.on_waiting Jobs.on_restored Jobs.on_planning_started Jobs.on_evidence
    Jobs.on_planning_generated Jobs.on_planning_validated Jobs.on_planning_failed Jobs.on_rehydrated
    Jobs.on_resumed Jobs.on_created Jobs.on_state_changed Jobs.on_completed Jobs.on_blocked
    Jobs.on_failed Jobs.on_cancelled Jobs.reason_of Tasks.on_task Tasks.on_task_ready
    Tasks.assign_task Tasks.on_task_assigned Tasks.reroute_task Tasks.on_task_rerouted
    Tasks.on_task_requeued Tasks.node_of Tasks.on_task_created Tasks.start_task
    Tasks.on_task_started Tasks.complete_task Tasks.on_task_completed Tasks.fail_task
    Tasks.on_task_failed Tasks.replace_task Tasks.on_task_superseded Tasks.cancel_task
    Tasks.on_task_cancelled Tasks.on_task_reconciled Runs.run_of Runs.on_agent_started
    Runs.on_agent_finished Runs.on_agent_failed Runs.on_agent_timed_out Runs.on_agent_cancelled
    Runs.observation_of Runs.on_observation Runs.on_verification_started
apply_kind-stored_as py id Kinds.job_created n e f = refl
apply_kind-stored_as py id Kinds.job_state_changed n e f = refl
apply_kind-stored_as py id Kinds.job_completed n e f = refl
apply_kind-stored_as py id Kinds.job_blocked n e f = refl
apply_kind-stored_as py id Kinds.job_failed n e f = refl
apply_kind-stored_as py id Kinds.job_cancelled n e f = refl
apply_kind-stored_as py id Kinds.job_waiting_for_capacity n e f = refl
apply_kind-stored_as py id Kinds.job_capacity_restored n e f = refl
apply_kind-stored_as py id Kinds.planning_started n e f = refl
apply_kind-stored_as py id Kinds.evidence_collected n e f = refl
apply_kind-stored_as py id Kinds.planning_generated n e f = refl
apply_kind-stored_as py id Kinds.planning_validated n e f = refl
apply_kind-stored_as py id Kinds.planning_failed n e f = refl
apply_kind-stored_as py id Kinds.task_created n e f = refl
apply_kind-stored_as py id Kinds.task_ready n e f = refl
apply_kind-stored_as py id Kinds.task_assigned n e f = refl
apply_kind-stored_as py id Kinds.task_started n e f = refl
apply_kind-stored_as py id Kinds.task_completed n e f = refl
apply_kind-stored_as py id Kinds.task_failed n e f = refl
apply_kind-stored_as py id Kinds.task_superseded n e f = refl
apply_kind-stored_as py id Kinds.task_cancelled n e f = refl
apply_kind-stored_as py id Kinds.task_rerouted n e f = refl
apply_kind-stored_as py id Kinds.task_reconciled n e f = refl
apply_kind-stored_as py id Kinds.task_requeued n e f = refl
apply_kind-stored_as py id Kinds.agent_started n e f = refl
apply_kind-stored_as py id Kinds.agent_finished n e f = refl
apply_kind-stored_as py id Kinds.agent_failed n e f = refl
apply_kind-stored_as py id Kinds.agent_timed_out n e f = refl
apply_kind-stored_as py id Kinds.agent_cancelled n e f = refl
apply_kind-stored_as py id Kinds.observation_created n e f = refl
apply_kind-stored_as py id Kinds.artifact_created n e f = refl
apply_kind-stored_as py id Kinds.verification_started n e f = refl
apply_kind-stored_as py id Kinds.verification_ended n e f = refl
apply_kind-stored_as py id Kinds.job_rehydrated n e f = refl
apply_kind-stored_as py id Kinds.execution_resumed n e f = refl
apply_kind-stored_as py id Kinds.other_kind n e f = refl

pub replay-number_from :
    (py : Python) (id : String) (k : ℕ) (es : List Event) (f : Fold)
    → replay py id (number_from k es) f ≡ replay py id es f
unfolding replay
replay-number_from py id k [] f = refl
replay-number_from py id k (e ∷ es) f =
    replay-number_from py id (suc k) es
      (apply_kind py id (kind_of e.event_type) (stored_as (suc k) e) f)
    ∙ ap (replay py id es) (apply_kind-stored_as py id (kind_of e.event_type) (suc k) e f)
