-- ===== src/Recovery/Resumed.antt =====
-- What a recovered graph is like.
use hermes_lab.Prelude.{
  ap, ◌∙◌, any, ltb, leb, not, is_some, ◌||◌, if◌then◌else◌, ◌&&◌, ℕ, String, ◌≡◌, refl, Option,
  some, List, [], ◌∷◌, Bool, false, arith, length, Option-cases, inl, inr,
}
use mathlib.Core.Option
use hermes_lab.Dict.{Dict, lookup, has}
use hermes_lab.Task.{Value, TaskNode, is_running, is_failed, is_ready, is_succeeded}
use hermes_lab.TaskGraph.{TaskGraph}
use hermes_lab.TaskGraph.Done.{Done, success, dropped, replaced, IsDone}
use hermes_lab.Recovery.Defs.{
  AgentRun, is_live, cancel_run, cancel_runs, recover_task, recover_tasks, recover,
}

module _ (same : Value → Value → Bool) (evidence : TaskNode → Option (List Value)) (now : ℕ) where
  lookup-recover_tasks :
      (id : String) (tasks : Dict TaskNode)
      → lookup id (recover_tasks same evidence now tasks)
        ≡ Option.map (recover_task same evidence now) (lookup id tasks)
  unfolding lookup recover_tasks
  lookup-recover_tasks id [] = refl
  lookup-recover_tasks id ((j, t) ∷ tasks) = ground (arith, lookup-recover_tasks id tasks)

  -- What the recovery may make of a task: no task is RUNNING; a task is SUCCEEDED if it was, or if
  -- its interrupted run left evidence; it is READY if it was, if it was interrupted without evidence,
  -- or if it had failed with attempts left; it is FAILED if it was and has none left. No attempt is
  -- counted or given back, and a task that was neither RUNNING nor FAILED is what it was.
  pub record Recovered (before t : TaskNode) : Type 0 where
    pub stopped : is_running t.status ≡ false
    pub succeeds :
        is_succeeded t.status
        ≡ (is_succeeded before.status || (is_running before.status && is_some (evidence before)))
    pub goes_on : is_ready t.status ≡ (
        is_ready before.status
        || (is_running before.status && not (is_some (evidence before)))
        || (is_failed before.status && ltb before.attempt before.max_attempts))
    pub gives_up :
        is_failed t.status ≡ (is_failed before.status && leb before.max_attempts before.attempt)
    pub attempts : (t.attempt ≡ before.attempt) × (t.max_attempts ≡ before.max_attempts)
    pub untouched : t ≡ (if is_running before.status || is_failed before.status then t else before)

  recover_task-Recovered : (t : TaskNode) → Recovered t (recover_task same evidence now t)
  unfolding recover_task
  recover_task-Recovered t = elim (Option-cases (evidence t)) [
    | inl e ↦ record {
      stopped = ground (arith, e);
      succeeds = ground (arith, e);
      goes_on = ground (arith, e);
      gives_up = ground (arith, e);
      attempts = (ground (arith, e), ground (arith, e));
      untouched = ground (arith, e);
    }
    | inr (found, e) ↦ record {
      stopped = ground (arith, e);
      succeeds = ground (arith, e);
      goes_on = ground (arith, e);
      gives_up = ground (arith, e);
      attempts = (ground (arith, e), ground (arith, e));
      untouched = ground (arith, e);
    }
  ]

  -- The recovery makes of each task of the graph what it may: one that was interrupted goes on, or
  -- is SUCCEEDED where its run left evidence; one that had failed goes on exactly while attempts are
  -- left, and else stays FAILED; every other one is what it was. No task is added.
  pub recover-Recovered :
      (g : TaskGraph) (id other : String) (before : TaskNode)
      → lookup id g.tasks ≡ some before
      → (t : TaskNode) × (lookup id (recover same evidence now g).0.tasks ≡ some t)
        × Recovered before t
        × (has other (recover same evidence now g).0.tasks ≡ has other g.tasks)
  unfolding recover
  recover-Recovered g id other before found = (
    recover_task same evidence now before,
    lookup-recover_tasks id g.tasks ∙ ap (Option.map (recover_task same evidence now)) found,
    recover_task-Recovered before,
    ground (arith, lookup-recover_tasks other g.tasks),
  )

  kept :
      (id : String) (tasks : Dict TaskNode) (n : TaskNode)
      → lookup id tasks ≡ some n
      → recover_task same evidence now n ≡ n
      → lookup id (recover_tasks same evidence now tasks) ≡ some n
  kept id tasks n found stays =
      lookup-recover_tasks id tasks
      ∙ ap (Option.map (recover_task same evidence now)) found
      ∙ ap some stays

  Done-recover_tasks :
      {tasks : Dict TaskNode} {k : ℕ} {id : String}
      → Done tasks k id
      → Done (recover_tasks same evidence now tasks) k id
  Done-recover_tasks {tasks} (success {id = id} {n = n} named found s) =
      success named (kept id tasks n found (unfold recover_task in ground arith)) s
  Done-recover_tasks {tasks} (dropped {id = id} {n = n} named found s t) =
      dropped named (kept id tasks n found (unfold recover_task in ground arith)) s t
  Done-recover_tasks {tasks} (replaced {id = id} {n = n} named found s t d) =
      replaced named (kept id tasks n found (unfold recover_task in ground arith)) s t
        (Done-recover_tasks d)

  -- The recovery undoes no finished dependency: what was done before the interruption stays done.
  pub recover-IsDone :
      (g : TaskGraph) (id : String)
      → IsDone g.tasks id
      → IsDone (recover same evidence now g).0.tasks id
  unfolding recover
  recover-IsDone g id (k, d) = (k, Done-recover_tasks d)

-- No run that was cut off is left INITIALIZING or RUNNING, and no run is lost.
pub cancel_runs-live :
    (now : ℕ) (rs : List AgentRun)
    → (any (λ r. is_live r.status) (cancel_runs now rs) ≡ false)
      × (length (cancel_runs now rs) ≡ length rs)
unfolding cancel_runs any cancel_run
cancel_runs-live now [] = (refl, refl)
cancel_runs-live now (r ∷ rs) = ground (arith, cancel_runs-live now rs)
