-- ===== src/Projection/Defs.antt =====
-- runtime/storage/projector.py: `RuntimeStateProjector.project`. `now` is the time at which the
-- projection makes its blank job. No upcaster is registered in the repository, so `upcast` returns
-- an event of the current schema version and raises on an older one. An artifact is a dict.
use Prim.Native.String.{◌++◌}
use hermes_lab.Prelude.{
  ◌>>=◌, ℕ, String, Option, none, some, List, [], ◌∷◌, ltb, if◌then◌else◌, length, sort_by, Result,
  ok, err, value_error,
}
use mathlib.Core.List
use hermes_lab.Dict.{Dict, has, insert, values}
use hermes_lab.Task.{Value, text, number, object, TaskNode, cancelled, is_active}
use hermes_lab.TaskGraph.{TaskGraph}
use hermes_lab.JobState
use hermes_lab.JobState.{JobRecord, state_eq}
use hermes_lab.EventStore.{sort_events}
use hermes_lab.Recovery.{AgentRun, run_cancelled, is_live}
use hermes_lab.Projection.Payload.{
  Payload, Event, Python, of_fields, get, get_true, truth, or_else, or_default,
}
use hermes_lab.Projection.Kinds.{
  Kind, kind_of, job_created, job_state_changed, job_completed, job_blocked, job_failed,
  job_cancelled, job_waiting_for_capacity, job_capacity_restored, planning_started,
  evidence_collected, planning_generated, planning_validated, planning_failed, task_created,
  task_ready, task_assigned, task_started, task_completed, task_failed, task_superseded,
  task_cancelled, task_rerouted, task_reconciled, task_requeued, agent_started, agent_finished,
  agent_failed, agent_timed_out, agent_cancelled, observation_created, artifact_created,
  verification_started, verification_ended, job_rehydrated, execution_resumed, other_kind,
}
use hermes_lab.Projection.Jobs.{
  blank_job, on_created, on_state_changed, on_completed, on_blocked, on_failed, on_cancelled,
  on_waiting, on_restored, on_planning_started, on_evidence, on_planning_generated,
  on_planning_validated, on_planning_failed, on_rehydrated, on_resumed,
}
use hermes_lab.Projection.Tasks.{
  on_task_created, on_task_ready, on_task_assigned, on_task_started, on_task_completed,
  on_task_failed, on_task_superseded, on_task_cancelled, on_task_rerouted, on_task_reconciled,
  on_task_requeued,
}
use hermes_lab.Projection.Runs.{
  Observation, Verification, result, on_agent_started, on_agent_finished, on_agent_failed,
  on_agent_timed_out, on_agent_cancelled, on_observation, on_verification_started,
}

-- The variables of the loop.
pub record Fold : Type 0 where
  pub job : JobRecord
  pub graph : TaskGraph
  pub runs : Dict AgentRun
  pub observations : Dict Observation
  pub artifacts : List Payload
  pub last_verification : Option Verification

-- ReconstructedRuntimeState
pub record Projected : Type 0 where
  pub final_job : JobRecord
  pub final_graph : TaskGraph
  pub final_runs : List AgentRun
  pub final_observations : List Observation
  pub final_artifacts : List Payload
  pub final_verification : Option Verification

unfoldable pub blank : ℕ → String → Fold
unfolding blank_job
blank now id = record {
  job = blank_job now id;
  graph = record { job_id = id; tasks = [] };
  runs = [];
  observations = [];
  artifacts = [];
  last_verification = none;
}

-- runtime/storage/schema_registry.py: `EventSchemaRegistry.upcast`.
unfoldable pub upcast : Event → Result Event
upcast e = if ltb e.schema_version 1 then err value_error else ok e

unfoldable pub upcast_all : List Event → Result (List Event)
unfolding upcast
upcast_all [] = ok []
upcast_all (e ∷ es) = do e' ← upcast e; es' ← upcast_all es; ok (e' ∷ es')

module _ (py : Python) (job_id : String) where
  unfoldable pub apply_kind : Kind → Event → Fold → Fold
  apply_kind job_created e s = record s { job = on_created py e s.job }
  apply_kind job_state_changed e s = record s { job = on_state_changed py e s.job }
  apply_kind job_completed e s = record s { job = on_completed py e s.job }
  apply_kind job_blocked e s = record s { job = on_blocked py e s.job }
  apply_kind job_failed e s = record s { job = on_failed py e s.job }
  apply_kind job_cancelled e s = record s { job = on_cancelled py e s.job }
  apply_kind job_waiting_for_capacity e s = record s { job = on_waiting e s.job }
  apply_kind job_capacity_restored e s = record s { job = on_restored e s.job }
  apply_kind planning_started e s = record s { job = on_planning_started e s.job }
  apply_kind evidence_collected e s = record s { job = on_evidence e s.job }
  apply_kind planning_generated e s = record s { job = on_planning_generated e s.job }
  apply_kind planning_validated e s = record s { job = on_planning_validated e s.job }
  apply_kind planning_failed e s = record s { job = on_planning_failed e s.job }
  apply_kind task_created e s = record s { graph = on_task_created py job_id e s.graph }
  apply_kind task_ready e s = record s { graph = on_task_ready e s.graph }
  apply_kind task_assigned e s = record s { graph = on_task_assigned e s.graph }
  apply_kind task_started e s = record s { graph = on_task_started py e s.graph }
  apply_kind task_completed e s = record s { graph = on_task_completed py e s.graph }
  apply_kind task_failed e s = record s { graph = on_task_failed py e s.graph }
  apply_kind task_superseded e s = record s { graph = on_task_superseded py e s.graph }
  apply_kind task_cancelled e s = record s { graph = on_task_cancelled py e s.graph }
  apply_kind task_rerouted e s = record s { graph = on_task_rerouted e s.graph }
  apply_kind task_reconciled e s = record s { graph = on_task_reconciled py e s.graph }
  apply_kind task_requeued e s = record s { graph = on_task_requeued e s.graph }
  apply_kind agent_started e s = record s { runs = on_agent_started py job_id e s.runs }
  apply_kind agent_finished e s = record s { runs = on_agent_finished py e s.runs }
  apply_kind agent_failed e s = record s { runs = on_agent_failed py e s.runs }
  apply_kind agent_timed_out e s = record s { runs = on_agent_timed_out py e s.runs }
  apply_kind agent_cancelled e s = record s { runs = on_agent_cancelled py e s.runs }
  apply_kind observation_created e s = record s {
    observations = on_observation py job_id e s.observations;
  }
  apply_kind artifact_created e s = record s { artifacts = List.◌++◌ s.artifacts (e.payload ∷ []) }
  apply_kind verification_started e s = record s {
    last_verification = some (on_verification_started e);
  }
  apply_kind verification_ended e s = record s { last_verification = some (result e.payload) }
  apply_kind job_rehydrated e s = record s { job = on_rehydrated e s.job }
  apply_kind execution_resumed e s = record s { job = on_resumed e s.job }
  apply_kind other_kind e s = s

  -- The loop over the events.
  unfoldable pub replay : List Event → Fold → Fold
  replay [] s = s
  replay (e ∷ es) s = replay es (apply_kind (kind_of e.event_type) e s)

-- `t.completed_at or job.completed_at`
abbrev or_end : Option ℕ → Option ℕ → Option ℕ
or_end none b = b
or_end (some a) b = some a

unfoldable pub close_task : Option ℕ → TaskNode → TaskNode
unfolding is_active
close_task end t =
    if is_active t.status
    then record t { status = cancelled; completed_at = or_end t.completed_at end }
    else t

unfoldable pub close_run : Option ℕ → AgentRun → AgentRun
close_run end r =
    if is_live r.status
    then record r {
      status = run_cancelled;
      finished_at = or_end r.finished_at end;
      exit_reason = some (or_default r.exit_reason "cancelled");
    }
    else r

-- A loop that mutates each object of a dict.
unfoldable pub map_values {ℓ} : {A : Type ℓ} → (A → A) → Dict A → Dict A
map_values f [] = []
map_values f ((k, v) ∷ d) = (k, f v) ∷ map_values f d

-- What is done after the loop where the job is CANCELLED.
unfoldable pub close_cancelled : Fold → Fold
unfolding map_values close_task close_run
close_cancelled s =
    if state_eq s.job.state JobState.cancelled
    then record s {
      graph = record s.graph { tasks = map_values (close_task s.job.completed_at) s.graph.tasks };
      runs = map_values (close_run s.job.completed_at) s.runs;
    }
    else s

-- An artifact reference, as a dict.
abbrev dict_of : Value → Payload
unfolding of_fields
dict_of (object fs) = of_fields fs
dict_of v = []

module _ (py : Python) where
  -- The key of an artifact, where so many are stored already.
  abbrev art_key : ℕ → Payload → String
  unfolding get truth
  art_key n art = py.show (
      or_default (or_else (get_true "id" art) (get_true "ref" art))
        (text ("art_" ++ py.show (number n))))

  unfoldable pub put_created : List Payload → Dict Payload → Dict Payload
  unfolding art_key
  put_created [] d = d
  put_created (a ∷ rest) d = put_created rest (insert (art_key (length d) a) a d)

  unfoldable pub put_missing : List Value → Dict Payload → Dict Payload
  unfolding art_key dict_of
  put_missing [] d = d
  put_missing (v ∷ vs) d =
      let key = art_key (length d) (dict_of v) in
      put_missing vs (if has key d then d else insert key (dict_of v) d)

  abbrev task_refs : List TaskNode → List Value
  task_refs [] = []
  task_refs (t ∷ ts) = List.◌++◌ t.artifact_refs (task_refs ts)

  abbrev run_refs : List AgentRun → List Value
  run_refs [] = []
  run_refs (r ∷ rs) = List.◌++◌ r.artifact_refs (run_refs rs)

  unfoldable pub collect_artifacts : Fold → Dict Payload
  unfolding put_created put_missing
  collect_artifacts s =
      put_missing (run_refs (values s.runs))
        (put_missing (task_refs (values s.graph.tasks)) (put_created s.artifacts []))

  unfoldable pub conclude : Fold → Projected
  conclude s =
      let s' = close_cancelled s in
      record {
        final_job = s'.job;
        final_graph = s'.graph;
        final_runs = sort_by (λ r. r.started_at) (values s'.runs);
        final_observations = sort_by (λ o. o.created_at) (values s'.observations);
        final_artifacts = values (collect_artifacts s');
        final_verification = s'.last_verification;
      }

  -- The rest of `project`, once the events are sorted and upcast.
  unfoldable pub fold_events : ℕ → Result (List Event) → Result Projected
  fold_events now (err x) = err x
  fold_events now (ok []) = err value_error
  fold_events now (ok (e ∷ es)) = ok (conclude (replay py e.job_id (e ∷ es) (blank now e.job_id)))

  unfoldable pub project : ℕ → List Event → Result Projected
  project now events = fold_events now (upcast_all (sort_events events))
