-- ===== src/Projection/Samples.antt =====
-- Concrete runs of the engine and their projections.
use hermes_lab.Prelude.{ℕ, ◌≡◌, refl, String, Option, none, some, List, [], ◌∷◌, take}
use hermes_lab.Dict.{lookup}
use hermes_lab.Task.{null, text, TaskNode, pending, cancelled}
use hermes_lab.JobState
use hermes_lab.JobState.{State, JobRecord}
use hermes_lab.Projection.Payload.{Event, Python}
use hermes_lab.EventStore.{sort_events}
use hermes_lab.Projection.Kinds.{kind_of}
use hermes_lab.Projection.Jobs.{blank_job, on_cancelled}
use hermes_lab.Projection.Bridge.{Writing, emit_job_created, emit_task_created, event_of}
use hermes_lab.Projection.Defs.{
  Projected, project, conclude, replay, blank, fold_events, upcast_all, upcast, apply_kind,
  close_cancelled,
}
use hermes_lab.Projection.Live.{Live, Act, transition, create, dispatch, fail, reroute, cancel}
use hermes_lab.Projection.Replayed.{Turn, play}
use hermes_lab.Projection.Closed.{IsClosed, project-IsClosed}

abbrev python : Python
python = record {
  stamp = λ s. 0;
  iso = λ n. "2026-01-01T00:00:00+00:00";
  show = λ v. "value";
  prefix = λ n s. s;
  lower = λ s. s;
}

abbrev writing : Writing
writing = record { new_id = "e"; time = "2026-01-01T00:00:00+00:00" }

abbrev turn : Act → Turn
turn a = record { act = a; first = writing; second = writing }

abbrev task_a : TaskNode
task_a = record {
  task_id = "a";
  job_id = "j";
  description = "build";
  status = pending;
  dependencies = [];
  required_capabilities = "code" ∷ [];
  assigned_actor = none;
  parent_task_id = none;
  created_at = 0;
  started_at = none;
  completed_at = none;
  attempt = 0;
  max_attempts = 2;
  metadata = [];
  artifact_refs = [];
  error = none;
  superseded_by = none;
  supersede_reason = none;
}

abbrev start_of_job : Live
unfolding blank_job
start_of_job = record {
  job = blank_job 0 "j";
  graph = record { job_id = "j"; tasks = [] };
  announced = [];
}

-- A task fails once, is started again, is rerouted, and is cancelled with its job.
abbrev turns : List Turn
turns =
    turn (transition 1 JobState.planning none [])
    ∷ turn (create task_a none)
    ∷ turn (transition 2 JobState.executing none [])
    ∷ turn (dispatch 3 "a" "claude" null)
    ∷ turn (fail 4 "a" "claude" none)
    ∷ turn (dispatch 5 "a" "claude" null)
    ∷ turn (reroute "a" "codex" "provider down")
    ∷ turn (transition 6 JobState.cancelled (some (text "stopped")) [])
    ∷ turn (cancel 7 "a" none)
    ∷ []

abbrev Holds : String → Option TaskNode → (TaskNode → Type 0) → Type 0
Holds id none P = Unit
Holds id (some t) P = (t.task_id ≡ id) × P t

-- The engine after the first turns.
abbrev after : ℕ → Live
unfolding play
after n = (play python (take n turns) start_of_job).0

-- A job with one task, cancelled before the task was started.
abbrev stopped_events : List Event
unfolding emit_job_created emit_task_created event_of
stopped_events =
    emit_job_created python writing start_of_job.job
    ∷ emit_task_created writing task_a none
    ∷ event_of writing "job.cancelled" "j" none none []
    ∷ []

abbrev stopped_projection : Projected
unfolding conclude replay blank
stopped_projection = conclude python (replay python "j" stopped_events (blank 0 "j"))

project-IsClosed_example : IsClosed stopped_projection
unfolding stopped_projection stopped_events project fold_events upcast_all upcast sort_events
    conclude replay apply_kind kind_of lookup close_cancelled emit_job_created emit_task_created
    event_of blank on_cancelled
project-IsClosed_example = project-IsClosed python 0 stopped_events stopped_projection refl refl
