-- ===== src/TaskGraph/Queries.antt =====
-- runtime/task_graph.py: the methods of `TaskGraph` that only read it.
use hermes_lab.Prelude.{
  ℕ, zero, suc, ◌+◌, String, Option, none, some, List, [], ◌∷◌, Bool, true, false, not, ◌==◌, ◌&&◌,
  ◌||◌, if◌then◌else◌, truthy, elem, keep, any, all, length,
}
use hermes_lab.Dict.{Dict, lookup, values}
use hermes_lab.Task.{
  TaskNode, succeeded, failed, blocked, cancelled, superseded, is_pending, is_ready, is_running,
  is_succeeded, is_failed,
}
use hermes_lab.TaskGraph.Defs.{TaskGraph, keeps_status}

-- What one round of `_dependency_done` finds at a node.
pub data Verdict : Type 0 where
  done unfinished : Verdict
  follow : String → Verdict

abbrev pub replacement : Option String → Verdict
replacement none = done
replacement (some id) = follow id

unfoldable pub verdict : Option TaskNode → Verdict
verdict none = unfinished
verdict (some dep) = elim dep.status [
  | succeeded ↦ done
  | superseded ↦ replacement (truthy dep.superseded_by)
  | _ ↦ unfinished
]

-- The `while` loop of `_dependency_done`; `none` means that the fuel ran out.
unfoldable pub done_loop : ℕ → Dict TaskNode → List String → String → Option Bool
done_loop zero tasks seen id = none
done_loop (suc fuel) tasks seen id = elim (id == "" || elem id seen) [
  | true ↦ some false
  | false ↦ elim (verdict (lookup id tasks)) [
    | done ↦ some true
    | unfinished ↦ some false
    | follow next ↦ done_loop fuel tasks (id ∷ seen) next
  ]
]

abbrev or_false : Option Bool → Bool
or_false none = false
or_false (some b) = b

unfoldable pub dependency_done : Dict TaskNode → String → Bool
dependency_done tasks id = or_false (done_loop (length tasks + 1) tasks [] id)

-- The test of `find_ready_tasks` on one task.
unfoldable pub is_runnable : Dict TaskNode → TaskNode → Bool
is_runnable tasks t =
    is_ready t.status || (is_pending t.status && all (dependency_done tasks) t.dependencies)

unfoldable pub find_ready_tasks : TaskGraph → List TaskNode
unfolding is_runnable
find_ready_tasks g = keep (is_runnable g.tasks) (values g.tasks)

-- `not dep or dep.status in {FAILED, BLOCKED, CANCELLED}`
unfoldable pub is_dead : Option TaskNode → Bool
is_dead none = true
is_dead (some dep) = elim dep.status [
  | failed ↦ true
  | blocked ↦ true
  | cancelled ↦ true
  | _ ↦ false
]

unfoldable pub is_dependency_blocked : Dict TaskNode → TaskNode → Bool
unfolding is_dead
is_dependency_blocked tasks t =
    (is_pending t.status || is_ready t.status)
    && any (λ id. is_dead (lookup id tasks)) t.dependencies

unfoldable pub find_blocked_tasks : TaskGraph → List TaskNode
unfolding is_dependency_blocked
find_blocked_tasks g = keep (is_dependency_blocked g.tasks) (values g.tasks)

unfoldable pub has_running_tasks : TaskGraph → Bool
has_running_tasks g = any (λ t. is_running t.status) (values g.tasks)

abbrev is_nonempty {ℓ} : {A : Type ℓ} → List A → Bool
is_nonempty [] = false
is_nonempty (x ∷ xs) = true

unfoldable pub has_runnable_tasks : TaskGraph → Bool
has_runnable_tasks g = is_nonempty (find_ready_tasks g)

-- Neither SUPERSEDED nor CANCELLED.
unfoldable pub counts : TaskNode → Bool
counts t = elim t.status [ superseded ↦ false | cancelled ↦ false | _ ↦ true ]

unfoldable pub is_all_completed : TaskGraph → Bool
is_all_completed g =
    let nodes = keep counts (values g.tasks) in
    is_nonempty nodes && all (λ t. is_succeeded t.status) nodes

-- The incomplete tasks are those with a status other than SUCCEEDED, SUPERSEDED and CANCELLED.
unfoldable pub is_stalled : TaskGraph → Bool
is_stalled g =
    if has_running_tasks g || has_runnable_tasks g
    then false
    else if is_all_completed g
    then false
    else is_nonempty (keep (λ t. not (keeps_status t.status)) (values g.tasks))

unfoldable pub has_active_tasks : TaskGraph → Bool
has_active_tasks g = has_running_tasks g || has_runnable_tasks g

unfoldable pub has_failed_tasks : TaskGraph → Bool
has_failed_tasks g = any (λ t. is_failed t.status) (values g.tasks)

unfoldable pub count : TaskGraph → ℕ
count g = length g.tasks
