-- ===== src/Engine/Verdicts.antt =====
-- runtime/engine.py: what a whole run keeps of a job and of its verdict.
use hermes_lab.Prelude.{
  own_value, ℕ, zero, suc, ◌≡◌, refl, ap, Option, none, some, List, [], Bool, true, false, ◌||◌,
  if◌then◌else◌, leb, is_some, Result, ok, err, Ensures, and_then, weaken, either, arith,
}
use hermes_lab.Task.{TaskNode}
use hermes_lab.TaskGraph.Queries.{is_all_completed}
use hermes_lab.JobState.{
  State, created, planning, executing, waiting_for_capacity, verifying, repairing, completed,
  blocked, failed, cancelled,
}
use hermes_lab.JobState.Traces.{before_verdict}
use hermes_lab.Engine.Defs.{
  Env, Engine, is_terminal, transition_job, request_replan, passed, repairing_again,
  repairs_planned, irreparable, verifier_environment, repairs_used, step_limit,
}
use hermes_lab.Engine.Steps.{Input, Verification, passes, by_environment, fails, repairable}
use hermes_lab.Engine.Loop.{
  plan_repair, add_default, resume_repair, repair_cycle, step_verifying, step_in, step, is_waiting,
  close, proceed, run,
}
use hermes_lab.Engine.AtWork.{
  IsCounted, Works, Worked, plain-Works, moved-Works, request_replan-Works, repairing-IsAtWork,
}
use hermes_lab.Engine.Sound.{
  Judged, unjudged, at_verifier, passed_by, IsSound, Sound, Works-IsSound, verdict-Sound,
  plain-Sound, created-Sound,
}
use hermes_lab.Engine.Executing.{step_executing-Sound, step_waiting-Sound}

module _ (env : Env) (inputs : ℕ → Input) where
  module _ (round : ℕ) where
    plan_repair-Works :
        (s : Engine × Bool)
        → Works env s.0
        → Ensures (Worked env) (plan_repair env (inputs round) s)
    unfolding plan_repair
    plan_repair-Works (e, found) h =
        either (Ensures (Worked env)) (is_some env.planner) _ _
          (λ p.
            and_then (Worked env) (Worked env)
              (request_replan env (inputs round).now (env.say repairs_planned) true e)
              (λ r. ok (r.0, true))
              (request_replan-Works env (inputs round).now (env.say repairs_planned) true e h)
              (λ r k. k))
          (λ p. h)

    resume_repair-Sound :
        (s : Engine × Bool)
        → Works env s.0
        → Ensures (Sound env inputs) (resume_repair env (inputs round) s)
    unfolding resume_repair add_default
    resume_repair-Sound (e, found) h =
        let ready : Engine = if found then e else add_default env (inputs round) e in
        either (Ensures (Sound env inputs)) (is_terminal e) _ _ (λ p. Works-IsSound env inputs e h)
          (λ p.
            plain-Sound env inputs round executing repairs_planned ready (λ x. (x, true)) refl
              (either (λ x. IsCounted env.limits x.job) found e _ (λ q. h.counted) (λ q. h.counted))
              (λ x w. w))

    repair_cycle-Sound :
        (recommended : List TaskNode) (e : Engine)
        → IsCounted env.limits e.job
        → Ensures (Sound env inputs) (repair_cycle env (inputs round) recommended e)
    unfolding repair_cycle transition_job
    repair_cycle-Sound recommended e h =
        either (Ensures (Sound env inputs)) (leb env.limits.max_repairs_per_job e.job.repair_count)
          _ _
          (λ p.
            plain-Sound env inputs round blocked repairs_used e (λ x. (x, false)) refl h (λ x w. w))
          (λ p.
            and_then (Works env) (Sound env inputs)
              (transition_job env (inputs round).now repairing repairing_again [] e) _
              (moved-Works env (inputs round).now repairing repairing_again [] e (
                repairing-IsAtWork env.limits (inputs round).now (some (env.say repairing_again)) []
                  e.job (ground (arith, p)) h))
              (λ e1 w.
                and_then (Worked env) (Sound env inputs) (plan_repair env (inputs round) _)
                  (resume_repair env (inputs round)) (plan_repair-Works (_, _) w)
                  resume_repair-Sound))

    step_verifying-Sound :
        (v : Verification) (e : Engine)
        → (inputs round).verify e ≡ ok v
        → is_all_completed e.graph ≡ true
        → IsCounted env.limits e.job
        → Ensures (Sound env inputs) (step_verifying env (inputs round) v e)
    unfolding step_verifying
    step_verifying-Sound passes e by done h =
        verdict-Sound env inputs round completed passed e false refl h
          (λ j there. passed_by round e there done refl by)
    step_verifying-Sound by_environment e by done h =
        plain-Sound env inputs round blocked verifier_environment e (λ x. (x, false)) refl h
          (λ x w. w)
    step_verifying-Sound (repairable recommended) e by done h = repair_cycle-Sound recommended e h
    step_verifying-Sound fails e by done h =
        plain-Sound env inputs round failed irreparable e (λ x. (x, false)) refl h (λ x w. w)

    all_succeeded :
        (e : Engine) → e.job.state ≡ verifying → Judged inputs e → is_all_completed e.graph ≡ true
    all_succeeded e at (unjudged early) = ground (arith, at, early)
    all_succeeded e at (at_verifier there done) = done
    all_succeeded e at (passed_by n e0 there done same by) = done

    step_in-Sound :
        (s : State) (e : Engine)
        → e.job.state ≡ s
        → IsSound env inputs e
        → Ensures (Sound env inputs) (step_in env (inputs round) s e)
    unfolding step_in
    step_in-Sound created e at h = created-Sound env inputs round e at h.counted
    step_in-Sound waiting_for_capacity e at h =
        step_waiting-Sound env inputs round e
          (record { counted = h.counted; unjudged = ap before_verdict at })
    step_in-Sound executing e at h =
        step_executing-Sound env inputs round e
          (record { counted = h.counted; unjudged = ap before_verdict at })
    step_in-Sound verifying e at h =
        and_then (λ v. (inputs round).verify e ≡ ok v) (Sound env inputs) ((inputs round).verify e)
          (λ v. step_verifying env (inputs round) v e) (own_value ((inputs round).verify e))
          (λ v by. step_verifying-Sound v e by (all_succeeded e at h.judged) h.counted)
    step_in-Sound planning e at h = h
    step_in-Sound repairing e at h = h
    step_in-Sound completed e at h = h
    step_in-Sound blocked e at h = h
    step_in-Sound failed e at h = h
    step_in-Sound cancelled e at h = h

    -- A step keeps the counts of a job within the limits, whatever planner, executions and verifier
    -- do, and a job is in verification only with all its tasks succeeded, and completed only if the
    -- verifier has passed them besides.
    pub step-IsSound :
        (e : Engine) → IsSound env inputs e → Ensures (Sound env inputs) (step env (inputs round) e)
    unfolding step
    step-IsSound e h =
        either (Ensures (Sound env inputs)) (is_terminal e || e.fenced) _ _ (λ p. h)
          (λ p. step_in-Sound e.job.state e refl h)

  module _ (max_steps : ℕ) where
    close-Sound :
        (round : ℕ) (e : Engine)
        → IsSound env inputs e
        → Ensures (IsSound env inputs) (close env inputs max_steps round e)
    unfolding close transition_job
    close-Sound round e h =
        either (Ensures (IsSound env inputs)) (is_terminal e) _ _ (λ p. h)
          (λ p.
            weaken (Works env) (IsSound env inputs)
              (transition_job env (inputs round).now blocked step_limit [] e)
              (plain-Works env (inputs round).now blocked step_limit [] e refl h.counted)
              (Works-IsSound env inputs))

    -- What holds of the engine that a run returns.
    abbrev pub Returns : (Engine → Type 0) → Option (Result Engine) → Type 0
    Returns P none = Unit
    Returns P (some r) = Ensures P r

    proceed-Sound :
        (round : ℕ) (rest : Engine → Option (Result Engine)) (r : Result (Engine × Bool))
        → Ensures (Sound env inputs) r
        → ((e : Engine) → IsSound env inputs e → Returns (IsSound env inputs) (rest e))
        → Returns (IsSound env inputs) (proceed env inputs max_steps round rest r)
    unfolding proceed
    proceed-Sound round rest (err x) h f = tt
    proceed-Sound round rest (ok (e, true)) h f = f e h
    proceed-Sound round rest (ok (e, false)) h f = close-Sound round e h

    pub run-Sound :
        (fuel round steps : ℕ) (e : Engine)
        → IsSound env inputs e
        → Returns (IsSound env inputs) (run env inputs max_steps fuel round steps e)
    unfolding run
    run-Sound zero round steps e h = tt
    run-Sound (suc fuel) round steps e h =
        let counted = if is_waiting e.job.state then steps else suc steps in
        let rest = run env inputs max_steps fuel (suc round) counted in
        either (Returns (IsSound env inputs)) (is_terminal e || leb max_steps steps) _ _
          (λ p. close-Sound round e h)
          (λ p.
            proceed-Sound round rest (step env (inputs round) e) (step-IsSound round e h)
              (λ e' k. run-Sound fuel (suc round) counted e' k))
