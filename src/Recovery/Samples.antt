-- ===== src/Recovery/Samples.antt =====
-- The theorems on recovery applied to a graph with an interrupted task.
use hermes_lab.Prelude.{◌≡◌, some, String, refl, none, List, [], ◌∷◌, Bool, false, Option}
use hermes_lab.Dict.{lookup, has}
use hermes_lab.Task.{Value, TaskNode, TaskStatus, running, succeeded}
use hermes_lab.TaskGraph.{TaskGraph}
use hermes_lab.Recovery.Defs.{recover}
use hermes_lab.Recovery.Resumed.{Recovered, recover-Recovered}

abbrev node : String → TaskStatus → List String → TaskNode
node id status dependencies = record {
  task_id = id;
  job_id = "job";
  description = "a task";
  status = status;
  dependencies = dependencies;
  required_capabilities = [];
  assigned_actor = none;
  parent_task_id = none;
  created_at = 10;
  started_at = none;
  completed_at = none;
  attempt = 1;
  max_attempts = 2;
  metadata = [];
  artifact_refs = [];
  error = none;
  superseded_by = none;
  supersede_reason = none;
}

abbrev interrupted : TaskGraph
interrupted = record {
  job_id = "job";
  tasks = ("a", node "a" succeeded []) ∷ ("b", node "b" running ("a" ∷ [])) ∷ [];
}

abbrev never_same : Value → Value → Bool
never_same v w = false

abbrev no_evidence : TaskNode → Option (List Value)
no_evidence t = none

recover-Recovered_example :
    (t : TaskNode) × (lookup "b" (recover never_same no_evidence 50 interrupted).0.tasks ≡ some t)
    × Recovered never_same no_evidence 50 (node "b" running ("a" ∷ [])) t
    × (has "c" (recover never_same no_evidence 50 interrupted).0.tasks ≡ has "c" interrupted.tasks)
recover-Recovered_example =
    recover-Recovered never_same no_evidence 50 interrupted "b" "c" (node "b" running ("a" ∷ []))
      (unfold lookup in refl)
