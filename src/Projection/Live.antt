-- ===== src/Projection/Live.antt =====
-- runtime/job_state.py, runtime/task_graph.py, runtime/events.py and their callers in
-- runtime/engine.py and runtime/scheduler.py: the running engine changes a job or a task and writes
-- the event of the change. An operation that raises writes nothing.
use hermes_lab.Prelude.{
  ℕ, ◌+◌, String, Option, none, some, List, [], ◌∷◌, Bool, true, false, if◌then◌else◌, Result, ok,
  err, or_unchanged,
}
use hermes_lab.Dict.{lookup}
use hermes_lab.Task.{Value, TaskNode, TaskStatus, pending, ready, running, cancelled}
use hermes_lab.TaskGraph.{
  TaskGraph, add_task, update_task, start, mark_running, mark_success, mark_failure, mark_cancelled,
  supersede_task, adopt, add_dependency, remove_task, mark_blocked,
}
use hermes_lab.JobState.{State, JobRecord, transition_to, state_eq}
use hermes_lab.Scheduler.{hand_over, give_back}
use hermes_lab.Projection.Payload.{Payload, Event, Python}
use hermes_lab.Projection.Bridge.{
  Writing, emit_job_state_changed, emit_task_created, emit_task_ready, emit_task_assigned,
  emit_task_started, emit_task_completed, emit_task_failed, emit_task_superseded,
  emit_task_cancelled, emit_task_rerouted,
}

-- The job, its graph, and the tasks whose cancellation was written.
pub record Live : Type 0 where
  pub job : JobRecord
  pub graph : TaskGraph
  pub announced : List String

pub data Act : Type 0 where
  -- engine._transition_job
  transition : ℕ → State → Option Value → Payload → Act
  -- an initial task, or one that a planner adds
  create : TaskNode → Option String → Act
  -- the dispatch of a task to an actor by schedule_ready_tasks, with its decision
  dispatch : ℕ → String → String → Value → Act
  -- the ends of _execute_task_wrapper
  succeed : ℕ → String → String → List Value → Payload → Act
  fail : ℕ → String → String → Option Value → Act
  reroute : String → String → String → Act
  -- a replacement by a planner
  supersede : ℕ → String → Option String → Option String → Act
  -- engine.cancel_durable, for one task
  cancel : ℕ → String → Option String → Act
  -- What changes the graph or the job and writes no event: ADD_DEPENDENCY and REMOVE_TASK of
  -- _apply_mutations, a task that waits or is BLOCKED, and the count of the repairs.
  depend : String → String → Act
  remove : String → Act
  wait : String → Act
  block : String → Option String → Act
  count_repair : Act

-- `self.graph.mark_…(task.task_id, …)` on a task in hand.
abbrev on_graph : (TaskGraph → Result TaskGraph) → Live → Live
on_graph f s = record s { graph = or_unchanged s.graph (f s.graph) }

-- RUNNING, READY, PENDING or CANCELLED
abbrev pub is_cancellable : TaskStatus → Bool
is_cancellable running = true
is_cancellable ready = true
is_cancellable pending = true
is_cancellable cancelled = true
is_cancellable _ = false

-- What is done where the task exists.
abbrev pub with_task : Option TaskNode → (TaskNode → Live × List Event) → Live → Live × List Event
with_task none f s = (s, [])
with_task (some t) f s = f t

module _ (py : Python) (w v : Writing) where
  -- The job after a transition that returned, and its event where the state changed.
  unfoldable pub after_transition :
      State → Option Value → Payload → Result JobRecord → Live → Live × List Event
  after_transition previous reason metadata (err x) s = (s, [])
  after_transition previous reason metadata (ok j) s =
      let written = emit_job_state_changed w j previous reason metadata ∷ [] in
      (record s { job = j }, if state_eq previous j.state then [] else written)

  -- The graph after `add_task`, and the event of the task that it returned.
  unfoldable pub after_add : TaskNode → Option String → Result TaskGraph → Live → Live × List Event
  after_add t reason (err x) s = (s, [])
  after_add t reason (ok g) s =
      (record s { graph = g }, emit_task_created w (adopt s.graph.job_id t) reason ∷ [])

  unfoldable pub cancel_one : ℕ → Option String → TaskNode → Live → Live × List Event
  unfolding emit_task_cancelled
  cancel_one now reason t s =
      let (announced, events) =
        emit_task_cancelled w s.announced t.task_id t.job_id reason t.attempt t.assigned_actor in
      if is_cancellable t.status
      then (
        record (on_graph (mark_cancelled now t.task_id reason) s) { announced = announced },
        events,
      )
      else (s, [])

  -- One act: the state of the engine after it, and the events that it wrote, in order. The two
  -- writings are for them.
  unfoldable pub perform : Act → Live → Live × List Event
  unfolding after_transition after_add cancel_one
  perform (transition now target reason metadata) s =
      after_transition s.job.state reason metadata (transition_to now target reason metadata s.job)
        s
  perform (create t reason) s = after_add t reason (add_task t s.graph) s
  perform (dispatch now id actor decision) s =
      with_task (lookup id s.graph.tasks)
        (λ t. (
          on_graph (mark_running now t.task_id (some actor)) s,
          emit_task_assigned w (start now (some actor) t) actor decision
              ∷ emit_task_started v (start now (some actor) t) actor
              ∷ [],
        ))
        s
  perform (succeed now id actor artifacts metadata) s =
      with_task (lookup id s.graph.tasks)
        (λ t. (
          on_graph (mark_success now t.task_id artifacts metadata) s,
          emit_task_completed w t actor artifacts ∷ [],
        ))
        s
  perform (fail now id actor error) s =
      with_task (lookup id s.graph.tasks)
        (λ t. (
          on_graph (mark_failure now t.task_id error true) s,
          emit_task_failed py w t actor error true ∷ [],
        ))
        s
  perform (reroute id to reason) s =
      with_task (lookup id s.graph.tasks)
        (λ t. (
          on_graph (update_task t.task_id (hand_over to)) s,
          emit_task_rerouted w t.task_id t.job_id t.assigned_actor to reason
              ∷ emit_task_ready v (hand_over to t)
              ∷ [],
        ))
        s
  perform (supersede now id by reason) s =
      with_task (lookup id s.graph.tasks)
        (λ t. (
          on_graph (supersede_task now id by reason) s,
          emit_task_superseded w id s.job.job_id by reason ∷ [],
        ))
        s
  perform (cancel now id reason) s =
      with_task (lookup id s.graph.tasks) (λ t. cancel_one now reason t s) s
  perform (depend id dep) s = (on_graph (add_dependency id dep) s, [])
  perform (remove id) s = (on_graph (remove_task id) s, [])
  perform (wait id) s = (on_graph (update_task id give_back) s, [])
  perform (block id reason) s = (on_graph (mark_blocked id reason) s, [])
  perform count_repair s =
      (record s { job = record s.job { repair_count = s.job.repair_count + 1 } }, [])
