-- ===== src/Engine/AtWork.antt =====
-- runtime/engine.py: what replans and repairs keep of a job.
use hermes_lab.Prelude.{◌>>=◌}
use hermes_lab.Prelude.{
  ℕ, ◌≤◌, ◌<◌, ◌≡◌, refl, Option, none, some, [], ◌∷◌, Bool, true, false, not, ◌&&◌, leb, Result,
  ok, Ensures, whatever, and_then, either, arith,
}
use hermes_lab.Dict.{Dict}
use hermes_lab.Limits.{RuntimeLimits}
use hermes_lab.Task.{Value}
use hermes_lab.TaskGraph.{TaskGraph}
use hermes_lab.JobState.{
  State, created, planning, executing, waiting_for_capacity, repairing, blocked, failed, JobRecord,
  legal, enter, transition_to,
}
use hermes_lab.JobState.Traces.{before_verdict}
use hermes_lab.Replanning.{apply_mutations}
use hermes_lab.Engine.Defs.{
  Why, plan_applied, no_progress, replan_limit, replanning, Env, Engine, PlanAnswer, transition_job,
  request_replan, transition_if_legal, apply_plan, replan_with, made_no_progress,
}
use hermes_lab.Engine.Batch.{Tally}

-- The counts of a job are within the limits.
pub record IsCounted (limits : RuntimeLimits) (j : JobRecord) : Type 0 where
  pub replans : j.replan_count ≤ limits.max_replans_per_job
  pub repairs : j.repair_count ≤ limits.max_repairs_per_job

-- Besides, the job is neither in verification nor completed.
pub record IsAtWork (limits : RuntimeLimits) (j : JobRecord) : Type 0 where
  pub counted : IsCounted limits j
  pub unjudged : before_verdict j.state ≡ true

-- The job is in a state, its counts within the limits.
pub record IsIn (limits : RuntimeLimits) (target : State) (j : JobRecord) : Type 0 where
  pub counted : IsCounted limits j
  pub there : j.state ≡ target

-- The targets that change no count and are not a verdict's.
abbrev pub is_plain : State → Bool
is_plain executing = true
is_plain waiting_for_capacity = true
is_plain blocked = true
is_plain failed = true
is_plain _ = false

module _ (limits : RuntimeLimits) (now : ℕ) where
  pub verdict-IsIn :
      (target : State) (reason : Option Value) (metadata : Dict Value) (j : JobRecord)
      → before_verdict target ≡ false
      → IsCounted limits j
      → Ensures (IsIn limits target) (transition_to now target reason metadata j)
  unfolding transition_to legal enter
  verdict-IsIn target reason metadata j h k = ground arith

  pub plain-IsAtWork :
      (target : State) (reason : Option Value) (metadata : Dict Value) (j : JobRecord)
      → is_plain target ≡ true
      → IsCounted limits j
      → Ensures (IsAtWork limits) (transition_to now target reason metadata j)
  unfolding transition_to legal enter
  plain-IsAtWork target reason metadata j plain h = ground arith

  pub planning-IsAtWork :
      (reason : Option Value) (metadata : Dict Value) (j : JobRecord)
      → j.replan_count < limits.max_replans_per_job
      → IsCounted limits j
      → Ensures (IsAtWork limits) (transition_to now planning reason metadata j)
  unfolding transition_to legal enter
  planning-IsAtWork reason metadata j room h = ground arith

  pub first_plan-IsAtWork :
      (reason : Option Value) (metadata : Dict Value) (j : JobRecord)
      → j.state ≡ created
      → IsCounted limits j
      → Ensures (IsAtWork limits) (transition_to now planning reason metadata j)
  unfolding transition_to legal enter
  first_plan-IsAtWork reason metadata j new h = ground (arith, new)

  pub repairing-IsAtWork :
      (reason : Option Value) (metadata : Dict Value) (j : JobRecord)
      → j.repair_count < limits.max_repairs_per_job
      → IsCounted limits j
      → Ensures (IsAtWork limits) (transition_to now repairing reason metadata j)
  unfolding transition_to legal enter
  repairing-IsAtWork reason metadata j room h = ground arith

module _ (env : Env) where
  -- An engine whose job is at work, and the same of a step's result.
  abbrev pub Works : Engine → Type 0
  Works e = IsAtWork env.limits e.job

  abbrev pub Worked : Engine × Bool → Type 0
  Worked s = Works s.0

  -- The same of what a loop over results has come to.
  abbrev pub Taken : Engine × Tally → Type 0
  Taken s = Works s.0

  pub paired-Works :
      (b : Bool) (m : Result Engine) → Ensures Works m → Ensures Worked (m >>= λ e. ok (e, b))
  paired-Works b m h = and_then Works Worked m (λ e. ok (e, b)) h (λ e k. k)

  module _ (now : ℕ) where
    pub moved :
        (P : JobRecord → Type 0) (Q : Engine → Type 0) (target : State) (why : Why)
        (metadata : Dict Value) (e : Engine)
        → Ensures P (transition_to now target (some (env.say why)) metadata e.job)
        → ((j : JobRecord) → P j → Q (record e { job = j }))
        → Ensures Q (transition_job env now target why metadata e)
    unfolding transition_job
    moved P Q target why metadata e h f =
        and_then P Q (transition_to now target (some (env.say why)) metadata e.job)
          (λ j. ok (record e { job = j })) h f

    pub moved-Works :
        (target : State) (why : Why) (metadata : Dict Value) (e : Engine)
        → Ensures
            (IsAtWork env.limits)
            (transition_to now target (some (env.say why)) metadata e.job)
        → Ensures Works (transition_job env now target why metadata e)
    moved-Works target why metadata e h =
        moved (IsAtWork env.limits) Works target why metadata e h (λ j k. k)

    pub plain-Works :
        (target : State) (why : Why) (metadata : Dict Value) (e : Engine)
        → is_plain target ≡ true
        → IsCounted env.limits e.job
        → Ensures Works (transition_job env now target why metadata e)
    plain-Works target why metadata e plain h =
        moved-Works target why metadata e
          (plain-IsAtWork env.limits now target (some (env.say why)) metadata e.job plain h)

    legal-Works :
        (target : State) (why : Why) (metadata : Dict Value) (e : Engine)
        → Ensures Works (transition_job env now target why metadata e)
        → Works e
        → Ensures Works (transition_if_legal env now target why metadata e)
    unfolding transition_if_legal
    legal-Works target why metadata e moved h =
        either (Ensures Works) (legal e.job.state target) _ _ (λ p. moved) (λ p. h)

    plan-Works :
        (must_progress : Bool) (answer : PlanAnswer) (e : Engine)
        → Works e
        → Ensures Worked (apply_plan env now must_progress answer e)
    unfolding apply_plan transition_if_legal
    plan-Works must_progress answer e h =
        let g : TaskGraph = (apply_mutations now env.limits answer.mutations e.graph).0 in
        let changed : Engine = record e { graph = g } in
        let resumed = plain-Works executing plan_applied [] changed refl h.counted in
        either (Ensures Worked) (made_no_progress env now answer g && must_progress) _ _
          (λ p.
            paired-Works false (transition_job env now blocked no_progress [] changed)
              (plain-Works blocked no_progress [] changed refl h.counted))
          (λ p.
            paired-Works (not (made_no_progress env now answer g))
              (transition_if_legal env now executing plan_applied [] changed)
              (legal-Works executing plan_applied [] changed resumed h))

    replan_with-Works :
        (planner : Option (JobRecord → TaskGraph → Result PlanAnswer)) (detail : Value)
        (must_progress : Bool) (e : Engine)
        → e.job.replan_count < env.limits.max_replans_per_job
        → Works e
        → Ensures Worked (replan_with env now planner detail must_progress e)
    unfolding replan_with
    replan_with-Works none detail must_progress e room h = h
    replan_with-Works (some plan) detail must_progress e room h =
        let why : Dict Value =
          ("replan_reason", env.say replanning) ∷ ("replan_detail", detail) ∷ [] in
        and_then Works Worked (transition_if_legal env now planning replanning why e)
          (λ e1. plan e1.job e1.graph >>= λ answer. apply_plan env now must_progress answer e1)
          (legal-Works planning replanning why e
            (moved-Works planning replanning why e (
              planning-IsAtWork env.limits now (some (env.say replanning)) why e.job room
                h.counted))
            h)
          (λ e1 k.
            whatever Worked (plan e1.job e1.graph)
              (λ answer. apply_plan env now must_progress answer e1)
              (λ answer. plan-Works must_progress answer e1 k))

    pub request_replan-Works :
        (detail : Value) (must_progress : Bool) (e : Engine)
        → Works e
        → Ensures Worked (request_replan env now detail must_progress e)
    unfolding request_replan
    request_replan-Works detail must_progress e h =
        either (Ensures Worked) (leb env.limits.max_replans_per_job e.job.replan_count) _ _
          (λ p.
            paired-Works false (transition_job env now blocked replan_limit [] e)
              (plain-Works blocked replan_limit [] e refl h.counted))
          (λ p. replan_with-Works env.planner detail must_progress e (ground (arith, p)) h)
