-- ===== src/Projection/Bridge.antt =====
-- runtime/events.py: the events of the job and its tasks that `RuntimeEventBridge` writes. The event
-- store sets their sequence. `Writing` is what `persist_and_publish` draws for an event: a new id and
-- the time. The live bus and the listeners get the same event and are not modelled here.
use hermes_lab.Prelude.{
  ℕ, String, Option, none, some, List, [], ◌∷◌, Bool, if◌then◌else◌, elem, ◌==◌, length,
}
use hermes_lab.Dict.{insert}
use hermes_lab.Task.{Value, null, flag, number, text, items, object, TaskNode}
use hermes_lab.JobState.{State, completed, blocked, failed, cancelled, JobRecord}
use hermes_lab.Projection.Payload.{
  Payload, Event, Python, to_fields, to_items, of_texts, truth, when_true,
}
use hermes_lab.Projection.Kinds.{state_name}

pub record Writing : Type 0 where
  pub new_id : String
  pub time : String

abbrev pub or_null : Option String → Value
or_null none = null
or_null (some s) = text s

-- `reason or default`
abbrev pub text_or_else : Option String → String → String
text_or_else none default = default
text_or_else (some s) default = if s == "" then default else s

-- `persist_and_publish`, up to the store.
unfoldable pub event_of :
    Writing → String → String → Option String → Option String → Payload → Event
event_of w kind job task actor payload = record {
  event_id = w.new_id;
  job_id = if job == "" then "job_unspecified" else job;
  sequence = 0;
  event_type = kind;
  payload = payload;
  task_id = task;
  run_id = none;
  actor_id = actor;
  schema_version = 1;
  occurred_at = w.time;
  parent_event_id = none;
  causation_id = none;
  correlation_id = none;
}

abbrev pub note_if : String → Option Value → Payload → Payload
note_if k none m = m
note_if k (some v) m = insert k v m

abbrev pub change_type : State → String
change_type completed = "job.completed"
change_type blocked = "job.blocked"
change_type failed = "job.failed"
change_type cancelled = "job.cancelled"
change_type _ = "job.state_changed"

unfoldable pub emit_job_state_changed : Writing → JobRecord → State → Option Value → Payload → Event
unfolding event_of state_name truth
emit_job_state_changed w job previous reason metadata =
    let named = insert "previous_state" (text (state_name previous)) metadata in
    let meta = insert "new_state" (text (state_name job.state)) named in
    event_of w (change_type job.state) job.job_id none none
      (note_if "reason" (when_true reason) meta)

unfoldable pub emit_task_created : Writing → TaskNode → Option String → Event
unfolding event_of to_items of_texts to_fields
emit_task_created w t reason = event_of w "task.created" t.job_id (some t.task_id) none (
    ("taskId", text t.task_id)
    ∷ ("description", text t.description)
    ∷ ("dependencies", items (to_items (of_texts t.dependencies)))
    ∷ ("requiredCapabilities", items (to_items (of_texts t.required_capabilities)))
    ∷ ("assignedActor", or_null t.assigned_actor)
    ∷ ("maxAttempts", number t.max_attempts)
    ∷ ("reason", or_null reason)
    ∷ ("metadata", object (to_fields t.metadata))
    ∷ [])

unfoldable pub emit_task_ready : Writing → TaskNode → Event
unfolding event_of to_items of_texts
emit_task_ready w t = event_of w "task.ready" t.job_id (some t.task_id) none (
    ("taskId", text t.task_id)
    ∷ ("requiredCapabilities", items (to_items (of_texts t.required_capabilities)))
    ∷ [])

unfoldable pub emit_task_assigned : Writing → TaskNode → String → Value → Event
unfolding event_of
emit_task_assigned w t actor decision =
    event_of w "task.assigned" t.job_id (some t.task_id) (some actor) (
      ("taskId", text t.task_id)
      ∷ ("assignedActor", text actor)
      ∷ ("delegationDecision", decision)
      ∷ [])

unfoldable pub emit_task_started : Writing → TaskNode → String → Event
unfolding event_of
emit_task_started w t actor =
    event_of w "task.started" t.job_id (some t.task_id) (some actor)
      (("taskId", text t.task_id) ∷ ("actorId", text actor) ∷ ("attempt", number t.attempt) ∷ [])

unfoldable pub emit_task_completed : Writing → TaskNode → String → List Value → Event
unfolding event_of to_items
emit_task_completed w t actor artifacts =
    event_of w "task.completed" t.job_id (some t.task_id) (some actor) (
      ("taskId", text t.task_id)
      ∷ ("actorId", text actor)
      ∷ ("artifactsCount", number (length artifacts))
      ∷ ("artifact_refs", items (to_items artifacts))
      ∷ [])

abbrev pub or_none : Option Value → Value
or_none none = null
or_none (some v) = v

unfoldable pub emit_task_failed : Python → Writing → TaskNode → String → Option Value → Bool → Event
unfolding event_of
emit_task_failed py w t actor error allow_retry =
    event_of w "task.failed" t.job_id (some t.task_id) (some actor) (
      ("taskId", text t.task_id)
      ∷ ("actorId", text actor)
      ∷ ("attempt", number t.attempt)
      ∷ ("error", text (py.show (or_none error)))
      ∷ ("allow_retry", flag allow_retry)
      ∷ [])

unfoldable pub emit_task_superseded :
    Writing → String → String → Option String → Option String → Event
unfolding event_of
emit_task_superseded w task job by reason =
    event_of w "task.superseded" job (some task) none
      (("taskId", text task) ∷ ("supersededBy", or_null by) ∷ ("reason", or_null reason) ∷ [])

-- The event that `emit_task_cancelled` writes.
unfoldable pub cancellation : Writing → String → String → Option String → ℕ → Option String → Event
unfolding event_of
cancellation w task job reason attempt actor = event_of w "task.cancelled" job (some task) actor (
    ("taskId", text task)
    ∷ ("reason", text (text_or_else reason "cancelled"))
    ∷ ("attempt", number attempt)
    ∷ ("assignedActor", or_null actor)
    ∷ [])

-- The event, unless it was written before: `announced` are the tasks of the job of which it was.
unfoldable pub emit_task_cancelled :
    Writing
    → List String
    → String
    → String
    → Option String
    → ℕ
    → Option String
    → List String × List Event
unfolding cancellation
emit_task_cancelled w announced task job reason attempt actor =
    if elem task announced
    then (announced, [])
    else (task ∷ announced, cancellation w task job reason attempt actor ∷ [])

unfoldable pub emit_task_rerouted :
    Writing → String → String → Option String → String → String → Event
unfolding event_of
emit_task_rerouted w task job from to reason =
    event_of w "task.rerouted" job (some task) (some to) (
      ("taskId", text task)
      ∷ ("fromActor", or_null from)
      ∷ ("toActor", text to)
      ∷ ("reason", text reason)
      ∷ ("previousRunId", null)
      ∷ [])

unfoldable pub emit_job_created : Python → Writing → JobRecord → Event
unfolding event_of to_fields
emit_job_created py w j = event_of w "job.created" j.job_id none none (
    ("goal", text j.goal)
    ∷ ("priority", text j.priority)
    ∷ ("title", or_null j.title)
    ∷ ("repository", or_null j.repository)
    ∷ ("branch", or_null j.branch)
    ∷ ("createdAt", text (py.iso j.created_at))
    ∷ ("metadata", object (to_fields j.metadata))
    ∷ [])
