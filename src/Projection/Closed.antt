-- ===== src/Projection/Closed.antt =====
-- runtime/storage/projector.py: nothing goes on in a job that is projected as cancelled.
use mathlib.Core.Path.{subst}
use hermes_lab.Prelude.{
  ℕ, ◌≡◌, refl, sym, ap, ◌∙◌, Option, List, [], ◌∷◌, Bool, true, false, any, any-sort_by, Result,
  ok, err, or_unchanged, arith,
}
use hermes_lab.Dict.{Dict, values}
use hermes_lab.Task.{TaskNode, is_active}
use hermes_lab.JobState
use hermes_lab.JobState.{state_eq}
use hermes_lab.EventStore.{sort_events}
use hermes_lab.Recovery.{AgentRun, is_live}
use hermes_lab.Projection.Payload.{Event, Python}
use hermes_lab.Projection.Defs.{
  Fold, Projected, close_task, close_run, close_cancelled, conclude, blank, replay, map_values,
  upcast_all, fold_events, project,
}

close_task-active : (end : Option ℕ) (t : TaskNode) → is_active (close_task end t).status ≡ false
unfolding close_task is_active
close_task-active end t = ground arith

close_run-live : (end : Option ℕ) (r : AgentRun) → is_live (close_run end r).status ≡ false
unfolding close_run
close_run-live end r = ground arith

any-map_values {ℓ} :
    {A : Type ℓ} (p : A → Bool) (f : A → A) (d : Dict A)
    → ((a : A) → p (f a) ≡ false)
    → any p (values (map_values f d)) ≡ false
unfolding any map_values
any-map_values p f [] h = refl
any-map_values p f ((k, a) ∷ d) h = rw (h a) (any-map_values p f d h)

-- No task is active and no run goes on.
pub record IsClosed (p : Projected) : Type 0 where
  pub tasks : any (λ t. is_active t.status) (values p.final_graph.tasks) ≡ false
  pub runs : any (λ r. is_live r.status) p.final_runs ≡ false

close_cancelled-tasks :
    (f : Fold)
    → state_eq f.job.state JobState.cancelled ≡ true
    → any (λ t. is_active t.status) (values (close_cancelled f).graph.tasks) ≡ false
unfolding close_cancelled
close_cancelled-tasks f e = rw e (
    any-map_values (λ t. is_active t.status) (close_task f.job.completed_at) f.graph.tasks
      (close_task-active f.job.completed_at))

close_cancelled-runs :
    (f : Fold)
    → state_eq f.job.state JobState.cancelled ≡ true
    → any (λ r. is_live r.status) (values (close_cancelled f).runs) ≡ false
unfolding close_cancelled
close_cancelled-runs f e = rw e (
    any-map_values (λ r. is_live r.status) (close_run f.job.completed_at) f.runs
      (close_run-live f.job.completed_at))

conclude-IsClosed :
    (py : Python) (f : Fold)
    → (conclude py f).final_job.state ≡ JobState.cancelled
    → IsClosed (conclude py f)
unfolding conclude
conclude-IsClosed py f e =
    let job : (close_cancelled f).job ≡ f.job = unfold close_cancelled in ground arith in
    let cancelled_job : state_eq f.job.state JobState.cancelled ≡ true =
      ap (λ j. state_eq j.state JobState.cancelled) (sym job)
      ∙ ap (λ a. state_eq a JobState.cancelled) e in
    record {
      tasks = close_cancelled-tasks f cancelled_job;
      runs =
          any-sort_by (λ r. is_live r.status) (λ r. r.started_at) (values (close_cancelled f).runs)
          ∙ close_cancelled-runs f cancelled_job;
    }

fold_events-IsClosed :
    (py : Python) (now : ℕ) (r : Result (List Event)) (p : Projected)
    → fold_events py now r ≡ ok p
    → p.final_job.state ≡ JobState.cancelled
    → IsClosed p
unfolding fold_events
fold_events-IsClosed py now (err x) p h e = absurd (ground arith)
fold_events-IsClosed py now (ok []) p h e = absurd (ground arith)
fold_events-IsClosed py now (ok (x ∷ es)) p h e =
    subst (λ q. q.final_job.state ≡ JobState.cancelled → IsClosed q) (ap (or_unchanged p) h)
      (conclude-IsClosed py (replay py x.job_id (x ∷ es) (blank now x.job_id))) e

-- Whatever events a job has, in whatever order: where its projection is CANCELLED, no task is
-- PENDING, READY or RUNNING and no run is INITIALIZING or RUNNING.
pub project-IsClosed :
    (py : Python) (now : ℕ) (es : List Event) (p : Projected)
    → project py now es ≡ ok p
    → p.final_job.state ≡ JobState.cancelled
    → IsClosed p
unfolding project
project-IsClosed py now es = fold_events-IsClosed py now (upcast_all (sort_events es))
