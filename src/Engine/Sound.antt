-- ===== src/Engine/Sound.antt =====
-- runtime/engine.py: what every step keeps of a job and of its verdict.
use hermes_lab.Prelude.{◌>>=◌}
use hermes_lab.Prelude.{
  ℕ, ◌≡◌, refl, some, [], Bool, true, false, eqb, ok, Ensures, whatever, and_then, either,
}
use hermes_lab.TaskGraph.Queries.{is_all_completed, count}
use hermes_lab.JobState.{
  State, created, planning, executing, verifying, completed, blocked, JobRecord,
}
use hermes_lab.JobState.Traces.{before_verdict}
use hermes_lab.Engine.Defs.{
  Why, Env, Engine, initialize_and_plan, transition_job, planned, add_initial, all_done, first_plan,
  plan_made, nothing_planned,
}
use hermes_lab.Engine.Steps.{Input, passes, go_on, while_open, to_state}
use hermes_lab.Engine.AtWork.{
  IsCounted, Works, plain-Works, is_plain, moved-Works, moved, IsIn, verdict-IsIn,
  first_plan-IsAtWork,
}

-- What there is behind the state of a job: it is not in verification, or all its tasks have
-- succeeded, or the verifier has passed these tasks besides.
pub data Judged (inputs : ℕ → Input) (e : Engine) : Type 0 where
  unjudged : before_verdict e.job.state ≡ true → Judged inputs e
  at_verifier : e.job.state ≡ verifying → is_all_completed e.graph ≡ true → Judged inputs e
  passed_by :
      (n : ℕ) (e0 : Engine)
      → e.job.state ≡ completed
      → is_all_completed e.graph ≡ true
      → e0.graph ≡ e.graph
      → (inputs n).verify e0 ≡ ok passes
      → Judged inputs e

pub record IsSound (env : Env) (inputs : ℕ → Input) (e : Engine) : Type 0 where
  pub counted : IsCounted env.limits e.job
  pub judged : Judged inputs e

module _ (env : Env) (inputs : ℕ → Input) where
  pub Works-IsSound : (e : Engine) → Works env e → IsSound env inputs e
  Works-IsSound e h = record { counted = h.counted; judged = unjudged h.unjudged }

  -- The same of what a step returns.
  abbrev pub Sound : Engine × Bool → Type 0
  Sound s = IsSound env inputs s.0

  module _ (round : ℕ) where
    -- A transition to a state of a verdict, at the end of a step.
    pub verdict-Sound :
        (target : State) (why : Why) (e : Engine) (b : Bool)
        → before_verdict target ≡ false
        → IsCounted env.limits e.job
        → ((j : JobRecord) → j.state ≡ target → Judged inputs (record e { job = j }))
        → Ensures Sound (to_state env (inputs round) target why e >>= λ e'. ok (e', b))
    unfolding transition_job
    verdict-Sound target why e b late h f =
        and_then (IsSound env inputs) Sound (to_state env (inputs round) target why e)
          (λ e'. ok (e', b))
          (moved env (inputs round).now (IsIn env.limits target) (IsSound env inputs) target why []
            e
            (verdict-IsIn env.limits (inputs round).now target (some (env.say why)) [] e.job late h)
            (λ j k. record { counted = k.counted; judged = f j k.there }))
          (λ e' k. k)

    pub verifying-Sound :
        (e : Engine)
        → is_all_completed e.graph ≡ true
        → IsCounted env.limits e.job
        → Ensures Sound (go_on (to_state env (inputs round) verifying all_done e))
    verifying-Sound e done h =
        verdict-Sound verifying all_done e true refl h (λ j there. at_verifier there done)

    -- A transition to a state in which there is no verdict.
    pub plain-Sound :
        (target : State) (why : Why) (e : Engine) (k : Engine → Engine × Bool)
        → is_plain target ≡ true
        → IsCounted env.limits e.job
        → ((e' : Engine) → Works env e' → Works env (k e').0)
        → Ensures Sound (to_state env (inputs round) target why e >>= λ e'. ok (k e'))
    unfolding transition_job
    plain-Sound target why e k plain h f =
        and_then (Works env) Sound (to_state env (inputs round) target why e) (λ e'. ok (k e'))
          (plain-Works env (inputs round).now target why [] e plain h)
          (λ e' w. Works-IsSound (k e').0 (f e' w))

    initialize-Works :
        (e : Engine)
        → e.job.state ≡ created
        → IsCounted env.limits e.job
        → Ensures (Works env) (initialize_and_plan env (inputs round).now [] e)
    unfolding initialize_and_plan transition_job
    initialize-Works e at h =
        and_then (Works env) (Works env)
          (transition_job env (inputs round).now planning first_plan [] e) _
          (moved-Works env (inputs round).now planning first_plan [] e
            (first_plan-IsAtWork env.limits (inputs round).now _ [] e.job at h))
          (λ e1 w.
            let filled : Engine = record e1 { graph = add_initial env.limits [] e1.graph } in
            whatever (Works env) (planned env (inputs round).now env.planner filled) _ (λ g.
              let e2 : Engine = record filled { graph = g } in
              either (Ensures (Works env)) (eqb (count e2.graph) 0) _ _
                (λ p.
                  plain-Works env (inputs round).now blocked nothing_planned [] e2 refl w.counted)
                (λ p. plain-Works env (inputs round).now executing plan_made [] e2 refl w.counted)))

    pub created-Sound :
        (e : Engine)
        → e.job.state ≡ created
        → IsCounted env.limits e.job
        → Ensures Sound (initialize_and_plan env (inputs round).now [] e >>= while_open)
    unfolding while_open
    created-Sound e new h =
        and_then (Works env) Sound (initialize_and_plan env (inputs round).now [] e) while_open
          (initialize-Works e new h) (λ e' w. Works-IsSound e' w)
