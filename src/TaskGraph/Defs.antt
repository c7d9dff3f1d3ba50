-- ===== src/TaskGraph/Defs.antt =====
-- runtime/task_graph.py: the state of `TaskGraph` and the methods that change it.
use hermes_lab.Prelude.{
  ℕ, zero, suc, ◌≡◌, arith, ◌+◌, String, Option, none, some, List, [], ◌∷◌, ◌++◌, Bool, true, false,
  not, ◌==◌, ◌&&◌, if◌then◌else◌, ltb, elem, keep, any, length, Result, ok, err, key_error,
  value_error, or_now,
}
use hermes_lab.Dict.{Dict, lookup, has, insert, modify, remove, values}
use hermes_lab.Task.{
  Value, text, TaskNode, TaskStatus, ready, running, succeeded, failed, blocked, cancelled,
  superseded,
}

pub record TaskGraph : Type 0 where
  pub job_id : String
  pub tasks : Dict TaskNode

-- `if not node.job_id and self.job_id: node.job_id = self.job_id`
unfoldable pub adopt : String → TaskNode → TaskNode
adopt job node = if node.job_id == "" then record node { job_id = job } else node

unfoldable pub add_task : TaskNode → TaskGraph → Result TaskGraph
unfolding adopt
add_task node g =
    if has node.task_id g.tasks
    then err value_error
    else ok (record g { tasks = insert node.task_id (adopt g.job_id node) g.tasks })

-- The dependencies of the node that a key holds, none where the key is missing.
unfoldable pub dependencies_of : Dict TaskNode → String → List String
dependencies_of tasks id = elim (lookup id tasks) [ none ↦ [] | some node ↦ node.dependencies ]

-- The `while queue` loop of `_has_path`; `none` means that the fuel ran out.
unfoldable pub has_path_loop : ℕ → Dict TaskNode → String → List String → List String → Option Bool
has_path_loop zero tasks target visited queue = none
has_path_loop (suc fuel) tasks target visited [] = some false
has_path_loop (suc fuel) tasks target visited (curr ∷ queue) = elim (curr == target) [
  | true ↦ some true
  | false ↦ elim (elem curr visited) [
    | true ↦ has_path_loop fuel tasks target visited queue
    | false ↦
        has_path_loop fuel tasks target (curr ∷ visited)
          (queue ++ keep (λ dep. not (elem dep (curr ∷ visited))) (dependencies_of tasks curr))
  ]
]

-- A round takes one entry off the queue, and each node puts its dependencies on it once.
unfoldable pub path_fuel : Dict TaskNode → ℕ
path_fuel [] = 2
path_fuel ((k, node) ∷ tasks) = length node.dependencies + path_fuel tasks

abbrev or_false : Option Bool → Bool
or_false none = false
or_false (some b) = b

unfoldable pub has_path : Dict TaskNode → String → String → Bool
has_path tasks start target =
    or_false (has_path_loop (path_fuel tasks) tasks target [] (start ∷ []))

unfoldable pub append_missing : String → TaskNode → TaskNode
append_missing dep node =
    if elem dep node.dependencies
    then node
    else record node { dependencies = node.dependencies ++ dep ∷ [] }

unfoldable pub add_dependency : String → String → TaskGraph → Result TaskGraph
add_dependency id dep g =
    if not (has id g.tasks)
    then err key_error
    else if not (has dep g.tasks)
    then err key_error
    else if id == dep
    then err value_error
    else if has_path g.tasks dep id
    then err value_error
    else ok (record g { tasks = modify id (append_missing dep) g.tasks })

unfoldable pub get_task : String → TaskGraph → Option TaskNode
get_task id g = lookup id g.tasks

unfoldable pub list_tasks : TaskGraph → List TaskNode
list_tasks g = values g.tasks

unfoldable pub has_dependents : String → List TaskNode → Bool
has_dependents id nodes = any (λ t. elem id t.dependencies) nodes

-- The result `none` of a missing task is dropped: the graph is unchanged then.
unfoldable pub remove_task : String → TaskGraph → Result TaskGraph
unfolding has_dependents
remove_task id g =
    if not (has id g.tasks)
    then ok g
    else if has_dependents id (values g.tasks)
    then err value_error
    else ok (record g { tasks = remove id g.tasks })

-- `task = self._tasks.get(task_id)`, the KeyError where it is missing, and the writes to `task`.
unfoldable pub update_task : String → (TaskNode → TaskNode) → TaskGraph → Result TaskGraph
update_task id f g =
    if has id g.tasks then ok (record g { tasks = modify id f g.tasks }) else err key_error

-- The statuses that `mark_ready` leaves alone.
unfoldable pub keeps_status : TaskStatus → Bool
keeps_status succeeded = true
keeps_status superseded = true
keeps_status cancelled = true
keeps_status _ = false

unfoldable pub mark_ready : String → TaskGraph → Result TaskGraph
unfolding update_task keeps_status
mark_ready id =
    update_task id (λ t. if keeps_status t.status then t else record t { status = ready })

-- `if actor_id: task.assigned_actor = actor_id`
abbrev actor_or : Option String → Option String → Option String
actor_or none old = old
actor_or (some actor) old = if actor == "" then old else some actor

-- The writes of `mark_running` to the task.
unfoldable pub start : ℕ → Option String → TaskNode → TaskNode
start now actor t = record t {
  status = running;
  started_at = or_now t.started_at now;
  assigned_actor = actor_or actor t.assigned_actor;
  attempt = t.attempt + 1;
}

unfoldable pub mark_running : ℕ → String → Option String → TaskGraph → Result TaskGraph
unfolding update_task start
mark_running now id actor = update_task id (start now actor)

-- `dict.update`
abbrev merge : Dict Value → Dict Value → Dict Value
merge old [] = old
merge old ((k, v) ∷ new) = merge (insert k v old) new

-- The writes of `mark_success` to the task.
unfoldable pub finish : ℕ → List Value → Dict Value → TaskNode → TaskNode
finish now artifacts metadata t = record t {
  status = succeeded;
  completed_at = some now;
  error = none;
  artifact_refs = t.artifact_refs ++ artifacts;
  metadata = merge t.metadata metadata;
}

unfoldable pub mark_success : ℕ → String → List Value → Dict Value → TaskGraph → Result TaskGraph
unfolding update_task finish
mark_success now id artifacts metadata = update_task id (finish now artifacts metadata)

-- The writes of `mark_failure` to the task.
unfoldable pub give_up : ℕ → Option Value → Bool → TaskNode → TaskNode
give_up now error allow_retry t =
    if allow_retry && ltb t.attempt t.max_attempts
    then record t { error = error; status = ready }
    else record t { error = error; status = failed; completed_at = some now }

unfoldable pub mark_failure : ℕ → String → Option Value → Bool → TaskGraph → Result TaskGraph
unfolding update_task give_up
mark_failure now id error allow_retry = update_task id (give_up now error allow_retry)

-- `if reason: task.metadata[key] = reason`
abbrev note : String → Option String → Dict Value → Dict Value
note key none metadata = metadata
note key (some reason) metadata =
    if reason == "" then metadata else insert key (text reason) metadata

unfoldable pub mark_blocked : String → Option String → TaskGraph → Result TaskGraph
unfolding update_task
mark_blocked id reason =
    update_task id
      (λ t. record t { status = blocked; metadata = note "blocked_reason" reason t.metadata })

-- The writes of `mark_cancelled` to the task.
unfoldable pub end_cancelled : ℕ → Option String → TaskNode → TaskNode
end_cancelled now reason t = record t {
  status = cancelled;
  completed_at = some now;
  metadata = note "cancelled_reason" reason t.metadata;
}

unfoldable pub mark_cancelled : ℕ → String → Option String → TaskGraph → Result TaskGraph
unfolding update_task end_cancelled
mark_cancelled now id reason = update_task id (end_cancelled now reason)

-- The writes of `supersede_task` to the task.
unfoldable pub replace : ℕ → Option String → Option String → TaskNode → TaskNode
replace now by reason t = record t {
  status = superseded;
  superseded_by = by;
  supersede_reason = reason;
  completed_at = some now;
}

unfoldable pub supersede_task :
    ℕ → String → Option String → Option String → TaskGraph → Result TaskGraph
unfolding update_task replace
supersede_task now id by reason = update_task id (replace now by reason)

pub update_task-eq-ok :
    (id : String) (f : TaskNode → TaskNode) (g h : TaskGraph)
    → update_task id f g ≡ ok h
    → h.tasks ≡ modify id f g.tasks
unfolding update_task
update_task-eq-ok id f g h e = ground arith

pub update_task_found :
    (id : String) (f : TaskNode → TaskNode) (g : TaskGraph) (n : TaskNode)
    → lookup id g.tasks ≡ some n
    → update_task id f g ≡ ok (record g { tasks = modify id f g.tasks })
unfolding update_task
update_task_found id f g n found = rw found
