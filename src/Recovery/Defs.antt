-- ===== src/Recovery/Defs.antt =====
-- runtime/recovery.py: the reconciliation of tasks and runs when a job is resumed. `evidence` stands
-- for `InterruptedTaskReconciler.evaluate`, which reads git: the artifacts it found where it
-- decides that an interrupted task had finished. `same` is the equality of artifacts.
use hermes_lab.Prelude.{
  ℕ, String, Option, none, some, List, [], ◌∷◌, ◌++◌, Bool, true, false, any, ltb, if◌then◌else◌,
}
use hermes_lab.Dict.{Dict, values}
use hermes_lab.Task.{Value, TaskNode, pending, ready, running, succeeded, failed}
use hermes_lab.TaskGraph.{TaskGraph}

pub data AgentRunStatus : Type 0 where
  initializing run_running run_succeeded run_failed run_cancelled timed_out : AgentRunStatus

pub record AgentRun : Type 0 where
  pub run_id : String
  pub job_id : String
  pub task_id : String
  pub actor_id : String
  pub status : AgentRunStatus
  pub attempt : ℕ
  pub started_at : ℕ
  pub finished_at : Option ℕ
  pub exit_reason : Option String
  pub artifact_refs : List Value
  pub error : Option Value
  pub delegation_decision : Option Value
  pub metadata : Dict Value

-- The lists of ids that the recovery reports.
pub record Report : Type 0 where
  pub reconciled_tasks : List String
  pub requeued_tasks : List String
  pub preserved_tasks : List String

module _ (same : Value → Value → Bool) (evidence : TaskNode → Option (List Value)) (now : ℕ) where
  -- `for art in …: if art not in task.artifact_refs: task.artifact_refs.append(art)`
  unfoldable pub add_refs : List Value → List Value → List Value
  add_refs refs [] = refs
  add_refs refs (a ∷ found) = add_refs (if any (same a) refs then refs else refs ++ a ∷ []) found

  abbrev resume : Option (List Value) → TaskNode → TaskNode
  unfolding add_refs
  resume none t = record t { status = ready }
  resume (some found) t = record t {
    status = succeeded;
    completed_at = some now;
    artifact_refs = add_refs t.artifact_refs found;
  }

  abbrev retry : TaskNode → TaskNode
  retry t = if ltb t.attempt t.max_attempts then record t { status = ready } else t

  -- The writes of the loop to one task.
  unfoldable pub recover_task : TaskNode → TaskNode
  unfolding resume
  recover_task t = elim t.status [ running ↦ resume (evidence t) t | failed ↦ retry t | _ ↦ t ]

  abbrev reconciled : Option (List Value) → String → Report → Report
  reconciled none id r = record r { requeued_tasks = r.requeued_tasks ++ id ∷ [] }
  reconciled (some found) id r = record r { reconciled_tasks = r.reconciled_tasks ++ id ∷ [] }

  abbrev preserve : String → Report → Report
  preserve id r = record r { preserved_tasks = r.preserved_tasks ++ id ∷ [] }

  -- The list that the loop puts one task on.
  unfoldable pub sort_task : TaskNode → Report → Report
  sort_task t r = elim t.status [
    | succeeded ↦ preserve t.task_id r
    | pending ↦ preserve t.task_id r
    | ready ↦ preserve t.task_id r
    | running ↦ reconciled (evidence t) t.task_id r
    | failed ↦
        if ltb t.attempt t.max_attempts
        then record r { requeued_tasks = r.requeued_tasks ++ t.task_id ∷ [] }
        else preserve t.task_id r
    | _ ↦ r
  ]

  unfoldable pub recover_tasks : Dict TaskNode → Dict TaskNode
  recover_tasks [] = []
  recover_tasks ((id, t) ∷ tasks) = (id, recover_task t) ∷ recover_tasks tasks

  unfoldable pub report_of : List TaskNode → Report → Report
  report_of [] r = r
  report_of (t ∷ ts) r = report_of ts (sort_task t r)

  -- The loop over `projected.graph.list_tasks()`.
  unfoldable pub recover : TaskGraph → TaskGraph × Report
  recover g = (
    record g { tasks = recover_tasks g.tasks },
    report_of (values g.tasks)
        (record { reconciled_tasks = []; requeued_tasks = []; preserved_tasks = [] }),
  )

-- RUNNING and INITIALIZING
abbrev pub is_live : AgentRunStatus → Bool
is_live initializing = true
is_live run_running = true
is_live _ = false

unfoldable pub cancel_run : ℕ → AgentRun → AgentRun
cancel_run now r =
    if is_live r.status
    then record r {
      status = run_cancelled;
      finished_at = some now;
      exit_reason = some "process_interrupted";
    }
    else r

unfoldable pub cancel_runs : ℕ → List AgentRun → List AgentRun
unfolding cancel_run
cancel_runs now [] = []
cancel_runs now (r ∷ rs) = cancel_run now r ∷ cancel_runs now rs
