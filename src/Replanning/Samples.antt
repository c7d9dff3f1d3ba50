-- ===== src/Replanning/Samples.antt =====
-- The bounds of the replanner applied to a plan with two mutations.
use hermes_lab.Prelude.{◌≤◌, none, some, List, [], ◌∷◌, arith}
use hermes_lab.Dict.{lookup}
use hermes_lab.Task.{TaskNode, pending}
use hermes_lab.TaskGraph.{TaskGraph}
use hermes_lab.TaskGraph.Queries.{count}
use hermes_lab.TaskGraph.Wellformed.{IsGraph}
use hermes_lab.Limits.{default_limits}
use hermes_lab.Replanning.Defs.{GraphMutation, add_task_kind, supersede_task_kind, apply_mutations}
use hermes_lab.Replanning.Bounds.{count-apply_mutations}

abbrev repair : TaskNode
repair = record {
  task_id = "repair";
  job_id = "";
  description = "repair the build";
  status = pending;
  dependencies = [];
  required_capabilities = [];
  assigned_actor = none;
  parent_task_id = none;
  created_at = 10;
  started_at = none;
  completed_at = none;
  attempt = 0;
  max_attempts = 9;
  metadata = [];
  artifact_refs = [];
  error = none;
  superseded_by = none;
  supersede_reason = none;
}

abbrev plan : List GraphMutation
plan =
    record {
      mutation_type = add_task_kind;
      task = some repair;
      task_id = none;
      depends_on_task_id = none;
      reason = none;
    }
    ∷ record {
      mutation_type = supersede_task_kind;
      task = none;
      task_id = some "repair";
      depends_on_task_id = none;
      reason = some "again";
    }
    ∷ []

abbrev no_tasks : TaskGraph
no_tasks = record { job_id = "job"; tasks = [] }

no_tasks-IsGraph : IsGraph no_tasks
unfolding lookup
no_tasks-IsGraph = record { unique = tt; named = λ k n e. absurd (cc) }

count-apply_mutations_example : count (apply_mutations 20 default_limits plan no_tasks).0 ≤ 50
count-apply_mutations_example =
    count-apply_mutations 20 default_limits plan no_tasks (unfold count in omega arith)
