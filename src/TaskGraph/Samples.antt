-- ===== src/TaskGraph/Samples.antt =====
-- Small graphs, and the theorems on `TaskGraph` applied to them.
use mathlib.Core.List.{Memᴰ}
use hermes_lab.Prelude.{
  ◌+◌, ℕ, String, ◌≡◌, ◌↔◌, refl, none, some, List, [], ◌∷◌, true, arith, err, value_error, elem,
  keep,
}
use hermes_lab.Dict.{lookup, modify, insert, values}
use hermes_lab.Task.{text, TaskNode, TaskStatus, pending, ready, superseded}
use hermes_lab.TaskGraph.Defs.{
  TaskGraph, has_path_loop, path_fuel, has_path, dependencies_of, append_missing, add_dependency,
  finish, add_task, adopt,
}
use hermes_lab.TaskGraph.Queries.{dependency_done, find_ready_tasks}
use hermes_lab.TaskGraph.Paths.{Reaches, has_path_iff}
use hermes_lab.TaskGraph.Acyclic.{IsAcyclic, add_dependency-IsAcyclic, add_dependency-refuses}
use hermes_lab.TaskGraph.Wellformed.{IsGraph, add_task-IsGraph}
use hermes_lab.TaskGraph.Done.{IsDone, dependency_done_iff}
use hermes_lab.TaskGraph.Ready.{Eligible, find_ready_tasks_iff}
use hermes_lab.TaskGraph.Retry.{FailingRun, Ran, failing_runs, failing_runs-Ran}

abbrev node : String → TaskStatus → List String → TaskNode
node id status dependencies = record {
  task_id = id;
  job_id = "job";
  description = "a task";
  status = status;
  dependencies = dependencies;
  required_capabilities = [];
  assigned_actor = none;
  parent_task_id = none;
  created_at = 10;
  started_at = none;
  completed_at = none;
  attempt = 0;
  max_attempts = 2;
  metadata = [];
  artifact_refs = [];
  error = none;
  superseded_by = none;
  supersede_reason = none;
}

-- Two tasks that do not depend on each other.
abbrev apart : TaskGraph
apart = record {
  job_id = "job";
  tasks = ("a", node "a" ready []) ∷ ("b", node "b" pending []) ∷ [];
}

-- The same with `b` after `a`.
abbrev linked : TaskGraph
linked = record {
  job_id = "job";
  tasks = ("a", node "a" ready []) ∷ ("b", node "b" pending ("a" ∷ [])) ∷ [];
}

apart-IsAcyclic : IsAcyclic apart.tasks
unfolding dependencies_of lookup elem
apart-IsAcyclic u v e = absurd (ground arith)

abbrev no_tasks : TaskGraph
no_tasks = record { job_id = "job"; tasks = [] }

no_tasks-IsGraph : IsGraph no_tasks
unfolding lookup
no_tasks-IsGraph = record { unique = tt; named = λ k n e. absurd (cc) }

abbrev only_a : TaskGraph
only_a = record { job_id = "job"; tasks = ("a", node "a" ready []) ∷ [] }

only_a-IsGraph : IsGraph only_a
unfolding add_task lookup insert adopt
only_a-IsGraph = add_task-IsGraph (node "a" ready []) no_tasks no_tasks-IsGraph

apart-IsGraph : IsGraph apart
unfolding add_task lookup insert adopt
apart-IsGraph = add_task-IsGraph (node "b" pending []) only_a only_a-IsGraph

add_dependency-IsAcyclic_example : IsAcyclic linked.tasks
add_dependency-IsAcyclic_example =
    add_dependency-IsAcyclic "b" "a" apart linked
      (unfold add_dependency has_path has_path_loop path_fuel lookup modify append_missing elem
          dependencies_of keep in
        refl)
      apart-IsAcyclic

add_dependency-refuses_example :
    (add_dependency "a" "b" linked ≡ err value_error) ↔ Reaches linked.tasks "b" "a"
add_dependency-refuses_example =
    add_dependency-refuses "a" "b" linked (unfold lookup in refl) (unfold lookup in refl)

has_path_iff_example : (has_path linked.tasks "b" "a" ≡ true) ↔ Reaches linked.tasks "b" "a"
has_path_iff_example = has_path_iff linked.tasks "b" "a"

dependency_done_iff_example : (dependency_done linked.tasks "a" ≡ true) ↔ IsDone linked.tasks "a"
dependency_done_iff_example = dependency_done_iff linked.tasks "a"

find_ready_tasks_iff_example :
    Memᴰ (node "a" ready []) (find_ready_tasks linked)
    ↔ Memᴰ (node "a" ready []) (values linked.tasks) × Eligible linked.tasks (node "a" ready [])
find_ready_tasks_iff_example = find_ready_tasks_iff linked (node "a" ready [])

-- `a` was replaced by nothing, and `b` succeeds.
abbrev dropped_a : TaskGraph
dropped_a = record {
  job_id = "job";
  tasks = ("a", node "a" superseded []) ∷ ("b", node "b" pending ("a" ∷ [])) ∷ [];
}

abbrev after_b : TaskGraph
after_b = record { job_id = "job"; tasks = modify "b" (finish 20 [] []) dropped_a.tasks }

abbrev timed_out : ℕ → String → FailingRun
timed_out started actor = record {
  started = started;
  ended = started + 5;
  actor = some actor;
  failure = some (text "timeout");
}

failing_runs-Ran_example :
    Ran "a" 2 2 (failing_runs "a" (timed_out 30 "claude" ∷ timed_out 40 "gemini" ∷ []) linked)
failing_runs-Ran_example =
    failing_runs-Ran "a" (timed_out 30 "claude") (timed_out 40 "gemini" ∷ []) linked
      (node "a" ready []) (unfold lookup in refl)
