-- ===== src/Engine/Batches.antt =====
-- runtime/engine.py: what the handling of ended executions keeps of a job.
use hermes_lab.Prelude.{◌>>=◌}
use hermes_lab.Prelude.{
  ℕ, ◌+◌, ◌<◌, refl, Option, none, some, List, [], ◌∷◌, true, not, ◌==◌, ◌&&◌, if◌then◌else◌, leb,
  length, Result, ok, Ensures, and_then, whatever, either, arith,
}
use hermes_lab.Dict.{Dict, lookup}
use hermes_lab.Task.{Value, TaskNode}
use hermes_lab.TaskGraph.{TaskGraph, add_task}
use hermes_lab.JobState.{blocked}
use hermes_lab.Engine.Defs.{not_converging, repairs_used, Env, Engine, transition_job}
use hermes_lab.Engine.Repairs.{
  meta_of, text_of, Ended, History, send_back, repair_failed_verdict, repair_node, recheck_node,
  history_of, diverges, is_repairable, values_of,
}
use hermes_lab.Scheduler.Rounds.{is_true}
use hermes_lab.Engine.Batch.{
  with_commit, is_unproven, Tally, take_unproven, ask_replan, take_verdict, take_ended, take_all,
}
use hermes_lab.Engine.AtWork.{Works, Worked, Taken, paired-Works, plain-Works}

module _ (env : Env) (now : ℕ) where
  send_back-Works :
      (t : TaskNode) (x : History) (findings : List Value) (e : Engine)
      → e.job.repair_count < env.limits.max_repairs_per_job
      → Works env e
      → Ensures (Works env) (send_back env now t x findings e)
  unfolding send_back
  send_back-Works t x findings e room h =
      let sent : TaskGraph → Engine =
        λ g. record e { graph = g; job = record e.job { repair_count = e.job.repair_count + 1 } } in
      let works : (g : TaskGraph) → Works env (sent g) = λ g. record {
        counted = record { replans = h.counted.replans; repairs = ground (arith, room) };
        unjudged = h.unjudged;
      } in
      let repair = repair_node env now e.job.job_id t x findings in
      let recheck = recheck_node env now e.job.job_id t x findings in
      whatever (Works env) (add_task repair e.graph) _ (λ g1.
        whatever (Works env) (add_task recheck g1) _
          (λ g2. whatever (Works env) _ (λ g. ok (sent g)) works))

  repair_failed_verdict-Works :
      (x : Ended) (e : Engine)
      → Works env e
      → Ensures (Worked env) (repair_failed_verdict env now x e)
  unfolding repair_failed_verdict
  repair_failed_verdict-Works x e h =
      let findings = values_of (lookup "findings" (meta_of x)) in
      let told = history_of env now x.task in
      either (Ensures (Worked env)) (not (env.repairs_verdicts && is_repairable env now x)) _ _
        (λ p. h)
        (λ p.
          either (Ensures (Worked env)) (diverges told (length findings)) _ _
            (λ q.
              paired-Works env true (transition_job env now blocked not_converging [] e)
                (plain-Works env now blocked not_converging [] e refl h.counted))
            (λ q.
              either (Ensures (Worked env)) (leb env.limits.max_repairs_per_job e.job.repair_count)
                _ _
                (λ r.
                  paired-Works env true (transition_job env now blocked repairs_used [] e)
                    (plain-Works env now blocked repairs_used [] e refl h.counted))
                (λ r.
                  paired-Works env true (send_back env now x.task told findings e)
                    (send_back-Works x.task told findings e (ground (arith, r)) h))))

  unproven-Taken :
      (x : Ended) (s : Engine × Tally) → Taken env s → Taken env (take_unproven env now x s)
  unfolding take_unproven
  unproven-Taken x (e, t) h =
      either (Taken env) (is_true (lookup "had_unproven" x.task.metadata)) _ _ (λ p. h) (λ p. h)

  ask-Taken :
      (d : Option (Dict Value)) (s : Engine × Tally)
      → Taken env s
      → Ensures (Taken env) (ask_replan env now d s)
  unfolding ask_replan
  ask-Taken none s h = tt
  ask-Taken (some d) (e, t) h = h

  verdict-Taken :
      (x : Ended) (s : Engine × Tally)
      → Taken env s
      → Ensures (Taken env) (take_verdict env now x s)
  unfolding take_verdict
  verdict-Taken x (e, t) h =
      and_then (Worked env) (Taken env) (repair_failed_verdict env now x e)
        (λ s. if s.1 then ok (s.0, t) else ask_replan env now x.metadata (s.0, t))
        (repair_failed_verdict-Works x e h)
        (λ s k.
          either (Ensures (Taken env)) s.1 _ _ (λ p. k) (λ p. ask-Taken x.metadata (s.0, t) k))

  take_ended-Taken :
      (x : Ended) (s : Engine × Tally) → Taken env s → Ensures (Taken env) (take_ended env now x s)
  unfolding take_ended
  take_ended-Taken x (e, t) h =
      either (Ensures (Taken env))
        (env.setting.lower (text_of (lookup "blocked_by" (meta_of x))) == "environment") _ _
        (λ p. h)
        (λ p.
          either (Ensures (Taken env)) (is_unproven env now x) _ _ (λ q. unproven-Taken x _ h)
            (λ q.
              verdict-Taken
                (record x { task = with_commit env now (lookup "commit_sha" (meta_of x)) x.task }) _
                h))

  pub take_all-Taken :
      (rs : List (Result Ended)) (s : Engine × Tally)
      → Taken env s
      → Ensures (Taken env) (take_all env now rs s)
  unfolding take_all
  take_all-Taken [] s h = h
  take_all-Taken (r ∷ rs) s h =
      whatever (Taken env) r (λ x. take_ended env now x s >>= take_all env now rs)
        (λ x.
          and_then (Taken env) (Taken env) (take_ended env now x s) (take_all env now rs)
            (take_ended-Taken x s h) (λ s' k. take_all-Taken rs s' k))
