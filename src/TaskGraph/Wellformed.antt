-- ===== src/TaskGraph/Wellformed.antt =====
-- Every method of `TaskGraph` keeps the dict and the nodes in agreement.
use hermes_lab.Prelude.{
  Ensures, ℕ, String, ◌≡◌, Option, some, Bool, List, arith, ◌==◌, eq_iff, Result, ok, err,
  Option-cases, Bool-cases, inl, inr, refl, Error, key_error, value_error, ◌⊎◌, ◌&&◌, ◌||◌,
}
use hermes_lab.Dict.{Dict, lookup, has, modify, values}
use hermes_lab.Dict.Laws.{
  Unique, Unique-insert, Unique-modify, Unique-remove, lookup-insert, lookup-modify, lookup-remove,
}
use hermes_lab.Task.{Value, TaskNode}
use hermes_lab.TaskGraph.Defs.{
  TaskGraph, adopt, add_task, append_missing, has_path, has_dependents, add_dependency, remove_task,
  update_task, mark_ready, mark_running, mark_success, mark_failure, mark_blocked, mark_cancelled,
  supersede_task,
}

-- No key stands twice, and every key is the id of its node.
pub record IsGraph (g : TaskGraph) : Type 0 where
  pub unique : Unique g.tasks
  pub named : (k : String) (n : TaskNode) → lookup k g.tasks ≡ some n → n.task_id ≡ k

pub add_task-IsGraph :
    (node : TaskNode) (g : TaskGraph) → IsGraph g → Ensures IsGraph (add_task node g)
unfolding add_task
add_task-IsGraph node g h = elim (Option-cases (lookup node.task_id g.tasks)) [
  | inl new ↦
      rw (new, add_task)
        (record {
          unique = Unique-insert node.task_id (adopt g.job_id node) g.tasks h.unique;
          named = λ k n e. ground (
            arith,
            lookup-insert node.task_id k (adopt g.job_id node) g.tasks,
            eq_iff node.task_id k,
            h.named k n,
          );
        })
  | inr (n, old) ↦ rw (old, add_task) tt
]

pub add_dependency-cases :
    (id dep : String) (g : TaskGraph)
    → ((e : Error) × (add_dependency id dep g ≡ err e))
      ⊎ (add_dependency id dep g ≡ ok (record g { tasks = modify id (append_missing dep) g.tasks }))
unfolding add_dependency
add_dependency-cases id dep g = elim (Bool-cases (has id g.tasks && has dep g.tasks)) [
  | inl known ↦ elim (Bool-cases (id == dep || has_path g.tasks dep id)) [
    | inl bad ↦ inl (value_error, ground arith)
    | inr good ↦ inr (ground arith)
  ]
  | inr unknown ↦ inl (key_error, ground arith)
]

module _ (id : String) (f : TaskNode → TaskNode) (g : TaskGraph)
    (same : (n : TaskNode) → (f n).task_id ≡ n.task_id) (h : IsGraph g) where
  modify-named :
      (k : String) (n : TaskNode) → lookup k (modify id f g.tasks) ≡ some n → n.task_id ≡ k
  modify-named k n e = elim (Option-cases (lookup k g.tasks)) [
    | inl gone ↦ ground (arith, lookup-modify id k f g.tasks)
    | inr (m, found) ↦ ground (arith, lookup-modify id k f g.tasks, h.named k m found, same m)
  ]

-- A method that writes to one node and not to its id.
update_task-IsGraph :
    (id : String) (f : TaskNode → TaskNode) (g : TaskGraph)
    → ((n : TaskNode) → (f n).task_id ≡ n.task_id)
    → IsGraph g
    → Ensures IsGraph (update_task id f g)
unfolding update_task
update_task-IsGraph id f g same h = elim (Option-cases (lookup id g.tasks)) [
  | inl gone ↦ rw (gone, update_task) tt
  | inr (m, found) ↦
      rw (found, update_task)
        (record {
          unique = Unique-modify id f g.tasks h.unique;
          named = modify-named id f g same h;
        })
]

add_dependency-IsGraph :
    (id dep : String) (g : TaskGraph) → IsGraph g → Ensures IsGraph (add_dependency id dep g)
add_dependency-IsGraph id dep g h = elim (add_dependency-cases id dep g) [
  | inl (e, raised) ↦ rw raised tt
  | inr done ↦ rw done (record {
    unique = Unique-modify id (append_missing dep) g.tasks h.unique;
    named = modify-named id (append_missing dep) g (λ n. unfold append_missing in ground arith) h;
  })
]

remove_task-IsGraph : (id : String) (g : TaskGraph) → IsGraph g → Ensures IsGraph (remove_task id g)
unfolding remove_task
remove_task-IsGraph id g h = elim (Bool-cases (has id g.tasks)) [
  | inl found ↦ elim (Bool-cases (has_dependents id (values g.tasks))) [
    | inl used ↦ rw (found, used, remove_task) tt
    | inr free ↦
        rw (found, free, remove_task)
          (record {
            unique = Unique-remove id g.tasks h.unique;
            named = λ k n e. ground (arith, lookup-remove id k g.tasks, h.named k n);
          })
  ]
  | inr gone ↦ rw (gone, remove_task) h
]

-- A call of a method that changes the graph, with the time at which it is made.
pub data Call : Type 0 where
  add : TaskNode → Call
  depend : String → String → Call
  drop : String → Call
  make_ready : String → Call
  run : ℕ → String → Option String → Call
  succeed : ℕ → String → List Value → Dict Value → Call
  fail : ℕ → String → Option Value → Bool → Call
  block : String → Option String → Call
  cancel : ℕ → String → Option String → Call
  supersede : ℕ → String → Option String → Option String → Call

unfoldable pub perform : Call → TaskGraph → Result TaskGraph
perform (add node) = add_task node
perform (depend id dep) = add_dependency id dep
perform (drop id) = remove_task id
perform (make_ready id) = mark_ready id
perform (run now id actor) = mark_running now id actor
perform (succeed now id artifacts metadata) = mark_success now id artifacts metadata
perform (fail now id error retry) = mark_failure now id error retry
perform (block id reason) = mark_blocked id reason
perform (cancel now id reason) = mark_cancelled now id reason
perform (supersede now id by reason) = supersede_task now id by reason

-- Whatever method is called, with whatever arguments: if it does not raise, the keys of the graph
-- stay distinct, and each stays the id of its node.
pub perform-IsGraph : (c : Call) (g : TaskGraph) → IsGraph g → Ensures IsGraph (perform c g)
unfolding perform mark_ready mark_running mark_success mark_failure mark_blocked mark_cancelled
    supersede_task
perform-IsGraph (add node) g h = add_task-IsGraph node g h
perform-IsGraph (depend id dep) g h = add_dependency-IsGraph id dep g h
perform-IsGraph (drop id) g h = remove_task-IsGraph id g h
perform-IsGraph (make_ready id) g h = update_task-IsGraph id _ g (λ n. ground arith) h
perform-IsGraph (run now id actor) g h = update_task-IsGraph id _ g (λ n. refl) h
perform-IsGraph (succeed now id artifacts metadata) g h = update_task-IsGraph id _ g (λ n. refl) h
perform-IsGraph (fail now id error retry) g h = update_task-IsGraph id _ g (λ n. ground arith) h
perform-IsGraph (block id reason) g h = update_task-IsGraph id _ g (λ n. refl) h
perform-IsGraph (cancel now id reason) g h = update_task-IsGraph id _ g (λ n. refl) h
perform-IsGraph (supersede now id by reason) g h = update_task-IsGraph id _ g (λ n. refl) h
