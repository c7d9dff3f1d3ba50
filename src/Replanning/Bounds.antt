-- ===== src/Replanning/Bounds.antt =====
-- Whatever a planner proposes, the graph stays well formed and within the limits of its job.
use hermes_lab.Prelude.{
  Ensures, ℕ, ◌≤◌, ◌<◌, String, Option, none, some, List, [], ◌∷◌, leb, truthy, Result, ok, err,
  arith, Bool-cases, inl, inr,
}
use hermes_lab.Dict.{values, has}
use hermes_lab.Dict.Laws.{length-insert, length-modify, length-remove-le}
use hermes_lab.Limits.{RuntimeLimits}
use hermes_lab.Task.{TaskNode}
use hermes_lab.TaskGraph.{
  TaskGraph, adopt, add_task, append_missing, replace, has_dependents, add_dependency,
  supersede_task, remove_task,
}
use hermes_lab.TaskGraph.Wellformed.{
  IsGraph, add, depend, drop, supersede, perform, perform-IsGraph, add_dependency-cases,
}
use hermes_lab.TaskGraph.Queries.{count}
use hermes_lab.Replanning.Defs.{
  MutationType, add_task_kind, add_dependency_kind, supersede_task_kind, remove_task_kind, Plan,
  capped, GraphMutation, apply_add, apply_dependency, apply_supersede, apply_remove, apply_kind,
  apply_one, apply_from, apply_mutations, commit,
}

-- A property of the graph that each mutation keeps is kept by a whole plan.
module _ {P : TaskGraph → Type 0} (now : ℕ) (limits : RuntimeLimits)
    (adds : (t : TaskNode) (g : TaskGraph)
      → count g < limits.max_tasks_per_job
      → P g
      → Ensures P (add_task (capped limits t) g))
    (depends : (id dep : String) (g : TaskGraph) → P g → Ensures P (add_dependency id dep g))
    (supersedes : (id : String) (by reason : Option String) (g : TaskGraph)
      → P g
      → Ensures P (supersede_task now id by reason g))
    (removes : (id : String) (g : TaskGraph) → P g → Ensures P (remove_task id g)) where
  commit_keeps :
      (id : String) (r : Result TaskGraph) (p : Plan) → Ensures P r → P p.0 → P (commit id r p).0
  commit_keeps id (ok g) p done h = done
  commit_keeps id (err e) p done h = h

  apply_add_keeps : (t : Option TaskNode) (p : Plan) → P p.0 → P (apply_add limits t p).0
  unfolding apply_add
  apply_add_keeps none p h = h
  apply_add_keeps (some t) p h = elim (Bool-cases (leb limits.max_tasks_per_job (count p.0))) [
    | inl full ↦ rw (full, apply_add) h
    | inr room ↦
        rw (room, apply_add)
          (commit_keeps t.task_id (add_task (capped limits t) p.0) p (adds t p.0 (ground arith) h)
            h)
  ]

  apply_dependency_keeps :
      (id dep : Option String) (p : Plan) → P p.0 → P (apply_dependency id dep p).0
  unfolding apply_dependency
  apply_dependency_keeps (some id) (some dep) p h =
      commit_keeps id (add_dependency id dep p.0) p (depends id dep p.0 h) h
  apply_dependency_keeps none dep p h = h
  apply_dependency_keeps (some id) none p h = h

  apply_supersede_keeps :
      (id by reason : Option String) (p : Plan) → P p.0 → P (apply_supersede now id by reason p).0
  unfolding apply_supersede
  apply_supersede_keeps none by reason p h = h
  apply_supersede_keeps (some id) by reason p h =
      commit_keeps id (supersede_task now id by reason p.0) p (supersedes id by reason p.0 h) h

  apply_remove_keeps : (id : Option String) (p : Plan) → P p.0 → P (apply_remove id p).0
  unfolding apply_remove
  apply_remove_keeps none p h = h
  apply_remove_keeps (some id) p h = commit_keeps id (remove_task id p.0) p (removes id p.0 h) h

  apply_kind_keeps :
      (k : MutationType) (m : GraphMutation) (p : Plan) → P p.0 → P (apply_kind k now limits m p).0
  unfolding apply_kind
  apply_kind_keeps add_task_kind m p h = apply_add_keeps m.task p h
  apply_kind_keeps add_dependency_kind m p h =
      apply_dependency_keeps (truthy m.task_id) (truthy m.depends_on_task_id) p h
  apply_kind_keeps supersede_task_kind m p h =
      apply_supersede_keeps (truthy m.task_id) m.depends_on_task_id m.reason p h
  apply_kind_keeps remove_task_kind m p h = apply_remove_keeps (truthy m.task_id) p h

  apply_from_keeps : (ms : List GraphMutation) (p : Plan) → P p.0 → P (apply_from now limits ms p).0
  unfolding apply_from
  apply_from_keeps [] p h = h
  apply_from_keeps (m ∷ ms) p h =
      apply_from_keeps ms (apply_one now limits m p)
        (unfold apply_one in apply_kind_keeps m.mutation_type m p h)

-- Whatever mutations a planner proposes, a graph whose keys are distinct and each the id of its node
-- stays one.
pub apply_mutations-IsGraph :
    (now : ℕ) (limits : RuntimeLimits) (ms : List GraphMutation) (g : TaskGraph)
    → IsGraph g
    → IsGraph (apply_mutations now limits ms g).0
unfolding apply_mutations
apply_mutations-IsGraph now limits ms g h =
    apply_from_keeps {P = IsGraph} now limits
      (λ t g room k. unfold perform in perform-IsGraph (add (capped limits t)) g k)
      (λ id dep g k. unfold perform in perform-IsGraph (depend id dep) g k)
      (λ id by reason g k. unfold perform in perform-IsGraph (supersede now id by reason) g k)
      (λ id g k. unfold perform in perform-IsGraph (drop id) g k) ms (g, []) h

abbrev Fits : ℕ → TaskGraph → Type 0
Fits bound g = count g ≤ bound

add_task-Fits :
    (bound : ℕ) (t : TaskNode) (g : TaskGraph)
    → count g < bound
    → Ensures (Fits bound) (add_task t g)
unfolding add_task count
add_task-Fits bound t g room = elim (Bool-cases (has t.task_id g.tasks)) [
  | inl old ↦ rw (old, add_task) tt
  | inr new ↦
      rw (new, add_task) (ground (arith, length-insert t.task_id (adopt g.job_id t) g.tasks))
]

add_dependency-Fits :
    (bound : ℕ) (id dep : String) (g : TaskGraph)
    → Fits bound g
    → Ensures (Fits bound) (add_dependency id dep g)
unfolding count
add_dependency-Fits bound id dep g h = elim (add_dependency-cases id dep g) [
  | inl (e, raised) ↦ rw raised tt
  | inr done ↦ rw done (omega (arith, length-modify id (append_missing dep) g.tasks))
]

supersede_task-Fits :
    (bound now : ℕ) (id : String) (by reason : Option String) (g : TaskGraph)
    → Fits bound g
    → Ensures (Fits bound) (supersede_task now id by reason g)
unfolding supersede_task count
supersede_task-Fits bound now id by reason g h = elim (Bool-cases (has id g.tasks)) [
  | inl found ↦
      rw (found, supersede_task) (omega (arith, length-modify id (replace now by reason) g.tasks))
  | inr gone ↦ rw (gone, supersede_task) tt
]

remove_task-Fits :
    (bound : ℕ) (id : String) (g : TaskGraph)
    → Fits bound g
    → Ensures (Fits bound) (remove_task id g)
unfolding remove_task count
remove_task-Fits bound id g h = elim (Bool-cases (has id g.tasks)) [
  | inl found ↦ elim (Bool-cases (has_dependents id (values g.tasks))) [
    | inl used ↦ rw (found, used, remove_task) tt
    | inr free ↦ rw (found, free, remove_task) (omega (arith, length-remove-le id g.tasks))
  ]
  | inr gone ↦ rw (gone, remove_task) h
]

-- Whatever mutations a planner proposes, in any number: a graph within the task limit of its job
-- stays within it.
pub count-apply_mutations :
    (now : ℕ) (limits : RuntimeLimits) (ms : List GraphMutation) (g : TaskGraph)
    → count g ≤ limits.max_tasks_per_job
    → count (apply_mutations now limits ms g).0 ≤ limits.max_tasks_per_job
unfolding apply_mutations
count-apply_mutations now limits ms g h =
    apply_from_keeps {P = Fits limits.max_tasks_per_job} now limits
      (λ t g room k. add_task-Fits limits.max_tasks_per_job (capped limits t) g room)
      (λ id dep g k. add_dependency-Fits limits.max_tasks_per_job id dep g k)
      (λ id by reason g k. supersede_task-Fits limits.max_tasks_per_job now id by reason g k)
      (λ id g k. remove_task-Fits limits.max_tasks_per_job id g k) ms (g, []) h
