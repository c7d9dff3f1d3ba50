-- ===== src/Projection/Tasks.antt =====
-- runtime/storage/projector.py: what each event of a task writes to the graph.
use hermes_lab.Prelude.{
  ℕ, zero, suc, ◌+◌, String, Option, none, some, List, [], ◌∷◌, ◌++◌, Bool, true, false, ◌==◌, ◌&&◌,
  if◌then◌else◌, ltb, or_now, or_unchanged,
}
use hermes_lab.Dict.{lookup, insert, modify}
use hermes_lab.Task.{
  Value, text, TaskNode, TaskStatus, pending, ready, running, succeeded, failed, cancelled,
  superseded,
}
use hermes_lab.TaskGraph.{TaskGraph, add_task, append_missing, keeps_status}
use hermes_lab.Projection.Payload.{
  Payload, Event, Python, get, get_text, get_number, get_items, get_fields, texts_of, truth,
  or_else, or_default,
}
use hermes_lab.Projection.Jobs.{at}

-- The writes to the task under a key; a missing task is skipped.
unfoldable pub on_task : String → (TaskNode → TaskNode) → TaskGraph → TaskGraph
on_task id f g = record g { tasks = modify id f g.tasks }

-- `payload.get("taskId") or event.task_id or ""`
abbrev pub task_id_of : Event → String
unfolding get_text
task_id_of e = or_default (or_else (get_text "taskId" e.payload) e.task_id) ""

-- `payload.get("taskId") or payload.get("task_id") or event.task_id or ""`
abbrev pub any_task_id_of : Event → String
unfolding get_text
any_task_id_of e =
    or_default
      (or_else (or_else (get_text "taskId" e.payload) (get_text "task_id" e.payload)) e.task_id) ""

-- `payload.get("actorId") or event.actor_id`
abbrev pub actor_of : Event → Option String
unfolding get_text
actor_of e = or_else (get_text "actorId" e.payload) e.actor_id

-- `if actor_id: task.assigned_actor = actor_id`
abbrev pub set_actor : Option String → TaskNode → TaskNode
set_actor none t = t
set_actor (some a) t = if a == "" then t else record t { assigned_actor = some a }

abbrev pub first_items : List Value → List Value → List Value
first_items [] vs = vs
first_items (u ∷ us) vs = u ∷ us

-- `payload.get("max_attempts") or payload.get("maxAttempts") or 2`
abbrev pub positive_or : Option ℕ → ℕ → ℕ
positive_or none n = n
positive_or (some zero) n = n
positive_or (some (suc m)) n = suc m

abbrev pub max_attempts_of : Payload → ℕ
unfolding get_number
max_attempts_of p =
    positive_or (get_number "max_attempts" p) (positive_or (get_number "maxAttempts" p) 2)

-- `for d in dependencies: if d not in …: ….append(d)`
unfoldable pub append_all : List String → TaskNode → TaskNode
unfolding append_missing
append_all [] t = t
append_all (d ∷ ds) t = append_all ds (append_missing d t)

unfoldable pub create_or_extend : Option TaskNode → TaskNode → TaskGraph → TaskGraph
unfolding add_task on_task append_all
create_or_extend none node g = or_unchanged g (add_task node g)
create_or_extend (some old) node g = on_task node.task_id (append_all node.dependencies) g

-- READY, unless the task succeeded, was superseded or was cancelled.
abbrev pub make_ready : TaskNode → TaskNode
make_ready t = if keeps_status t.status then t else record t { status = ready }

unfoldable pub on_task_ready : Event → TaskGraph → TaskGraph
unfolding on_task keeps_status
on_task_ready e = on_task (task_id_of e) make_ready

unfoldable pub assign_task : Event → TaskNode → TaskNode
unfolding get_text
assign_task e t = record t {
  assigned_actor = or_else (get_text "assignedActor" e.payload) (actor_of e);
}

unfoldable pub on_task_assigned : Event → TaskGraph → TaskGraph
unfolding on_task assign_task
on_task_assigned e = on_task (task_id_of e) (assign_task e)

abbrev pub attempt_or : Option ℕ → ℕ → ℕ
attempt_or none n = n
attempt_or (some m) n = m

-- payload.get("allow_retry", default)
abbrev pub allowed : Option Value → Bool → Bool
unfolding truth
allowed none default = default
allowed (some v) default = truth v

-- SUCCEEDED, SUPERSEDED and FAILED are not overwritten by a cancellation.
abbrev pub outlives : TaskStatus → Bool
outlives succeeded = true
outlives superseded = true
outlives failed = true
outlives _ = false

abbrev pub note_text : String → Option String → Payload → Payload
note_text k none m = m
note_text k (some s) m = insert k (text s) m

unfoldable pub reroute_task : Option String → Payload → TaskNode → TaskNode
unfolding get_text keeps_status
reroute_task none p t = t
reroute_task (some actor) p t = record (make_ready t) {
  assigned_actor = some actor;
  metadata =
      note_text "previous_actor" (or_else (get_text "fromActor" p) (get_text "from_actor" p))
        (note_text "last_reroute_reason" (get_text "reason" p) t.metadata);
}

unfoldable pub on_task_rerouted : Event → TaskGraph → TaskGraph
unfolding on_task get_text reroute_task
on_task_rerouted e =
    let to = or_else (get_text "toActor" e.payload) (get_text "to_actor" e.payload) in
    on_task (any_task_id_of e) (reroute_task to e.payload)

unfoldable pub on_task_requeued : Event → TaskGraph → TaskGraph
unfolding on_task
on_task_requeued e = on_task (any_task_id_of e) (λ t. record t { status = ready })

module _ (py : Python) where
  -- The node that `task.created` describes.
  unfoldable pub node_of : String → Event → TaskNode
  unfolding get_text get_number get_items get_fields texts_of
  node_of job e = record {
    task_id = any_task_id_of e;
    job_id = job;
    description =
        or_default (or_else (get_text "description" e.payload) (get_text "name" e.payload)) "";
    status = pending;
    dependencies = texts_of (get_items "dependencies" e.payload);
    required_capabilities = texts_of (
        first_items (get_items "requiredCapabilities" e.payload)
          (get_items "required_capabilities" e.payload));
    assigned_actor =
        or_else (get_text "assignedActor" e.payload) (get_text "assigned_actor" e.payload);
    parent_task_id = none;
    created_at = at py e;
    started_at = none;
    completed_at = none;
    attempt = 0;
    max_attempts = max_attempts_of e.payload;
    metadata = get_fields "metadata" e.payload;
    artifact_refs = [];
    error = none;
    superseded_by = none;
    supersede_reason = none;
  }

  unfoldable pub on_task_created : String → Event → TaskGraph → TaskGraph
  unfolding node_of create_or_extend
  on_task_created job e g =
      let node = node_of job e in create_or_extend (lookup node.task_id g.tasks) node g

  unfoldable pub start_task : Event → TaskNode → TaskNode
  unfolding get_number
  start_task e t = record (set_actor (actor_of e) t) {
    status = running;
    started_at = or_now t.started_at (at py e);
    attempt = attempt_or (get_number "attempt" e.payload) (t.attempt + 1);
  }

  unfoldable pub on_task_started : Event → TaskGraph → TaskGraph
  unfolding on_task start_task
  on_task_started e = on_task (task_id_of e) (start_task e)

  unfoldable pub complete_task : Event → TaskNode → TaskNode
  unfolding get_items
  complete_task e t = record (set_actor (actor_of e) t) {
    status = succeeded;
    completed_at = some (at py e);
    error = none;
    artifact_refs = t.artifact_refs ++ get_items "artifact_refs" e.payload;
  }

  unfoldable pub on_task_completed : Event → TaskGraph → TaskGraph
  unfolding on_task complete_task
  on_task_completed e = on_task (task_id_of e) (complete_task e)

  unfoldable pub fail_task : Event → TaskNode → TaskNode
  unfolding get get_number
  fail_task e t =
      let attempt = attempt_or (get_number "attempt" e.payload) t.attempt in
      let left = ltb attempt t.max_attempts in
      let t' = record t { error = get "error" e.payload; attempt = attempt } in
      if allowed (lookup "allow_retry" e.payload) left && left
      then record t' { status = ready }
      else record t' { status = failed; completed_at = some (at py e) }

  unfoldable pub on_task_failed : Event → TaskGraph → TaskGraph
  unfolding on_task fail_task
  on_task_failed e = on_task (task_id_of e) (fail_task e)

  unfoldable pub replace_task : Event → TaskNode → TaskNode
  unfolding get_text
  replace_task e t = record t {
    status = superseded;
    superseded_by =
        or_else (get_text "supersededBy" e.payload) (get_text "superseded_by" e.payload);
    supersede_reason = get_text "reason" e.payload;
    completed_at = some (at py e);
  }

  unfoldable pub on_task_superseded : Event → TaskGraph → TaskGraph
  unfolding on_task replace_task
  on_task_superseded e = on_task (task_id_of e) (replace_task e)

  unfoldable pub cancel_task : Event → TaskNode → TaskNode
  unfolding get_text
  cancel_task e t = if outlives t.status then t else record t {
    status = cancelled;
    completed_at = some (at py e);
    metadata = note_text "cancelled_reason" (get_text "reason" e.payload) t.metadata;
  }

  unfoldable pub on_task_cancelled : Event → TaskGraph → TaskGraph
  unfolding on_task cancel_task
  on_task_cancelled e = on_task (any_task_id_of e) (cancel_task e)

  unfoldable pub on_task_reconciled : Event → TaskGraph → TaskGraph
  unfolding on_task
  on_task_reconciled e =
      on_task (any_task_id_of e)
        (λ t. record t { status = succeeded; completed_at = some (at py e) })
