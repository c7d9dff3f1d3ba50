-- ===== src/TaskGraph/Retry.antt =====
-- Attempts and retries: `mark_running` counts them and `mark_failure` bounds them.
use hermes_lab.Prelude.{
  List, [], ◌∷◌, length, ℕ, ◌+◌, String, ◌≡◌, Option, some, true, arith, eq_refl, ltb,
  if◌then◌else◌, Result, ok, err,
}
use hermes_lab.Dict.{Dict, lookup, modify}
use hermes_lab.Dict.Laws.{lookup-modify}
use hermes_lab.Task.{Value, TaskNode, ready, failed}
use hermes_lab.TaskGraph.Defs.{
  TaskGraph, update_task_found, start, give_up, mark_running, mark_failure,
}

abbrev and_then : Result TaskGraph → (TaskGraph → Result TaskGraph) → Result TaskGraph
and_then (ok g) f = f g
and_then (err e) f = err e

-- A run that fails: when it starts and ends, who does it, and its error.
pub record FailingRun : Type 0 where
  pub started : ℕ
  pub ended : ℕ
  pub actor : Option String
  pub failure : Option Value

-- `mark_running`, then `mark_failure` with a retry allowed.
unfoldable pub failing_run : String → FailingRun → TaskGraph → Result TaskGraph
failing_run id r g =
    and_then (mark_running r.started id r.actor g) (mark_failure r.ended id r.failure true)

unfoldable pub failing_runs : String → List FailingRun → TaskGraph → Result TaskGraph
failing_runs id [] g = ok g
failing_runs id (r ∷ rs) g = and_then (failing_run id r g) (failing_runs id rs)

-- The task after failing runs: its attempts, and READY exactly while attempts are left.
pub record Ran (id : String) (attempt bound : ℕ) (r : Result TaskGraph) : Type 0 where
  pub graph : TaskGraph
  pub node : TaskNode
  pub returned : r ≡ ok graph
  pub found : lookup id graph.tasks ≡ some node
  pub attempts : node.attempt ≡ attempt
  pub limit : node.max_attempts ≡ bound
  pub status : node.status ≡ (if ltb attempt bound then ready else failed)

module _ (id : String) where
  abbrev after : FailingRun → TaskNode → TaskNode
  after r n = give_up r.ended r.failure true (start r.started r.actor n)

  abbrev tasks_after : FailingRun → TaskGraph → Dict TaskNode
  tasks_after r g =
      modify id (give_up r.ended r.failure true) (modify id (start r.started r.actor) g.tasks)

  lookup-after :
      (r : FailingRun) (g : TaskGraph) (n : TaskNode)
      → lookup id g.tasks ≡ some n
      → lookup id (tasks_after r g) ≡ some (after r n)
  lookup-after r g n found = ground (
    arith,
    eq_refl id,
    lookup-modify id id (start r.started r.actor) g.tasks,
    lookup-modify id id (give_up r.ended r.failure true)
        (modify id (start r.started r.actor) g.tasks),
  )

  failing_run_found :
      (r : FailingRun) (g : TaskGraph) (n : TaskNode)
      → lookup id g.tasks ≡ some n
      → failing_run id r g ≡ ok (record g { tasks = tasks_after r g })
  unfolding failing_run
  failing_run_found r g n found =
      rw (started, failing_run)
        (unfold mark_failure in
          update_task_found id (give_up r.ended r.failure true) started_graph
            (start r.started r.actor n)
            (ground (arith, eq_refl id, lookup-modify id id (start r.started r.actor) g.tasks)))
    where
      started_graph : TaskGraph
      started_graph = record g { tasks = modify id (start r.started r.actor) g.tasks }

      started : mark_running r.started id r.actor g ≡ ok started_graph
      started = unfold mark_running in update_task_found id (start r.started r.actor) g n found

  failing_run-Ran :
      (r : FailingRun) (g : TaskGraph) (n : TaskNode)
      → lookup id g.tasks ≡ some n
      → Ran id (n.attempt + 1) n.max_attempts (failing_run id r g)
  failing_run-Ran r g n found = record {
    graph = record g { tasks = tasks_after r g };
    node = after r n;
    returned = failing_run_found r g n found;
    found = lookup-after r g n found;
    attempts = unfold give_up start in ground arith;
    limit = unfold give_up start in ground arith;
    status = unfold give_up start in ground arith;
  }

  -- After one failing run or more, at whatever times, by whatever actors and with whatever errors, a
  -- task is READY exactly while attempts are left, and FAILED once its attempts have reached
  -- `max_attempts`; every run counted as one attempt.
  pub failing_runs-Ran :
      (r : FailingRun) (rs : List FailingRun) (g : TaskGraph) (n : TaskNode)
      → lookup id g.tasks ≡ some n
      → Ran id (n.attempt + length (r ∷ rs)) n.max_attempts (failing_runs id (r ∷ rs) g)
  unfolding failing_runs
  failing_runs-Ran r [] g n found =
      let first = failing_run-Ran r g n found in
      record {
        graph = first.graph;
        node = first.node;
        returned = rw (first.returned, failing_runs);
        found = first.found;
        attempts = first.attempts;
        limit = first.limit;
        status = first.status;
      }
  failing_runs-Ran r (q ∷ rs) g n found =
      let first = failing_run-Ran r g n found in
      let rest = failing_runs-Ran q rs first.graph first.node first.found in
      record {
        graph = rest.graph;
        node = rest.node;
        returned = rw (first.returned, failing_runs) rest.returned;
        found = rest.found;
        attempts = omega (arith, rest.attempts, first.attempts);
        limit = omega (arith, rest.limit, first.limit);
        status = ground (arith, rest.status, first.attempts, first.limit);
      }
