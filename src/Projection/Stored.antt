-- ===== src/Projection/Stored.antt =====
-- runtime/storage/projector.py: what `project` gives of the events that a run of the engine stored.
use hermes_lab.Prelude.{◌≡◌, none, [], Bool, not, if◌then◌else◌, ltb}
use hermes_lab.Dict.{Dict}
use hermes_lab.Task.{TaskNode}
use hermes_lab.JobState
use hermes_lab.JobState.{State, JobRecord, state_eq}
use hermes_lab.Projection.Payload.{Event}
use hermes_lab.Projection.Defs.{Projected, close_task, map_values, fold_events, fold_events}
use hermes_lab.Projection.Alike.{Alike}
use hermes_lab.Projection.JobSteps.{SameJob}
use hermes_lab.Projection.Live.{Live}

-- A job as it is created, before any of its tasks.
pub record IsNewJob (s : Live) : Type 0 where
  pub waits : s.job.state ≡ JobState.created
  pub unstarted : s.job.started_at ≡ none
  pub unended : s.job.completed_at ≡ none
  pub unblocked : s.job.blocked_reason ≡ none
  pub unfailed : s.job.failure_reason ≡ none
  pub unplanned : s.job.replan_count ≡ 0
  pub unrepaired : s.job.repair_count ≡ 0
  pub empty : s.graph.tasks ≡ []

-- The tasks of a live graph, where what a cancelled job left active is cancelled.
unfoldable pub closed_tasks : Live → Dict TaskNode
unfolding map_values close_task
closed_tasks s =
    if state_eq s.job.state JobState.cancelled
    then map_values (close_task s.job.completed_at) s.graph.tasks
    else s.graph.tasks

-- The projection tells what the engine knows.
pub record Tells (s : Live) (p : Projected) : Type 0 where
  pub jobs : SameJob s.job p.final_job
  pub tasks : Alike (closed_tasks s) p.final_graph.tasks

abbrev is_current : Event → Bool
is_current e = not (ltb e.schema_version 1)
