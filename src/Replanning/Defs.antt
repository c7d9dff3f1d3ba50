-- ===== src/Replanning/Defs.antt =====
-- runtime/replanning.py: `GraphMutation` and `BoundedReplanner.apply_mutations`. The events that
-- the bridge emits are effects and are not modelled. A task is a value here: the planner hands over
-- nodes that the graph does not hold yet.
use hermes_lab.Prelude.{
  ℕ, String, Option, none, some, List, [], ◌∷◌, ◌++◌, leb, min, if◌then◌else◌, truthy, Result, ok,
  err,
}
use hermes_lab.Limits.{RuntimeLimits}
use hermes_lab.Task.{TaskNode}
use hermes_lab.TaskGraph.{TaskGraph, add_task, add_dependency, supersede_task, remove_task}
use hermes_lab.TaskGraph.Queries.{count}

pub data MutationType : Type 0 where
  add_task_kind add_dependency_kind supersede_task_kind remove_task_kind : MutationType

pub record GraphMutation : Type 0 where
  pub mutation_type : MutationType
  pub task : Option TaskNode
  pub task_id : Option String
  pub depends_on_task_id : Option String
  pub reason : Option String

-- The graph, and the ids in `affected_task_ids`.
abbrev pub Plan : Type 0
Plan = TaskGraph × List String

-- `try`: the id is noted where the call returned, and nothing happens where it raised.
abbrev pub commit : String → Result TaskGraph → Plan → Plan
commit id (ok g) p = (g, p.1 ++ id ∷ [])
commit id (err e) p = p

-- `mutation.task.max_attempts = min(...)`
abbrev pub capped : RuntimeLimits → TaskNode → TaskNode
capped limits t = record t { max_attempts = min t.max_attempts limits.max_task_attempts }

unfoldable pub apply_add : RuntimeLimits → Option TaskNode → Plan → Plan
apply_add limits none p = p
apply_add limits (some t) p =
    if leb limits.max_tasks_per_job (count p.0)
    then p
    else commit t.task_id (add_task (capped limits t) p.0) p

unfoldable pub apply_dependency : Option String → Option String → Plan → Plan
apply_dependency (some id) (some dep) p = commit id (add_dependency id dep p.0) p
apply_dependency _ _ p = p

unfoldable pub apply_supersede : ℕ → Option String → Option String → Option String → Plan → Plan
apply_supersede now none by reason p = p
apply_supersede now (some id) by reason p = commit id (supersede_task now id by reason p.0) p

unfoldable pub apply_remove : Option String → Plan → Plan
apply_remove none p = p
apply_remove (some id) p = commit id (remove_task id p.0) p

-- The `if`/`elif` chain of the loop; an empty id counts as absent.
unfoldable pub apply_kind : MutationType → ℕ → RuntimeLimits → GraphMutation → Plan → Plan
unfolding apply_add apply_dependency apply_supersede apply_remove
apply_kind add_task_kind now limits m p = apply_add limits m.task p
apply_kind add_dependency_kind now limits m p =
    apply_dependency (truthy m.task_id) (truthy m.depends_on_task_id) p
apply_kind supersede_task_kind now limits m p =
    apply_supersede now (truthy m.task_id) m.depends_on_task_id m.reason p
apply_kind remove_task_kind now limits m p = apply_remove (truthy m.task_id) p

unfoldable pub apply_one : ℕ → RuntimeLimits → GraphMutation → Plan → Plan
unfolding apply_kind
apply_one now limits m p = apply_kind m.mutation_type now limits m p

unfoldable pub apply_from : ℕ → RuntimeLimits → List GraphMutation → Plan → Plan
apply_from now limits [] p = p
apply_from now limits (m ∷ ms) p = apply_from now limits ms (apply_one now limits m p)

unfoldable pub apply_mutations : ℕ → RuntimeLimits → List GraphMutation → TaskGraph → Plan
unfolding apply_from
apply_mutations now limits ms g = apply_from now limits ms (g, [])
