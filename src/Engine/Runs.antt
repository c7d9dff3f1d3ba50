-- ===== src/Engine/Runs.antt =====
-- runtime/engine.py: the runs of `run_until_complete`.
use mathlib.Core.Path.{subst}
use hermes_lab.Prelude.{
  ℕ, zero, suc, ◌+◌, ◌≤◌, ◌<◌, ◌≡◌, Option, none, some, [], Bool, true, false, ◌||◌, if◌then◌else◌,
  leb, Result, ok, err, Ensures, either, arith,
}
use hermes_lab.TaskGraph.Queries.{is_all_completed}
use hermes_lab.JobState.{completed, blocked, transition_to, legal, enter, is_terminal_state}
use hermes_lab.Engine.Defs.{Env, Engine, is_terminal, transition_job, step_limit}
use hermes_lab.Engine.Steps.{Input, passes}
use hermes_lab.Engine.Loop.{step, is_waiting, close, proceed, run}
use hermes_lab.Engine.AtWork.{IsCounted, IsAtWork}
use hermes_lab.Engine.Sound.{Judged, unjudged, at_verifier, passed_by, IsSound, Works-IsSound}
use hermes_lab.Engine.Verdicts.{Returns, run-Sound}

module _ (env : Env) (inputs : ℕ → Input) (max_steps : ℕ) where
  returned :
      (P : Engine → Type 0) (o : Option (Result Engine)) (r : Engine)
      → Returns env inputs max_steps P o
      → o ≡ some (ok r)
      → P r
  returned P o r h eq = subst (Returns env inputs max_steps P) eq h

  run-IsSound :
      (fuel : ℕ) (e r : Engine)
      → IsAtWork env.limits e.job
      → run env inputs max_steps fuel 0 0 e ≡ some (ok r)
      → IsSound env inputs r
  run-IsSound fuel e r h eq =
      returned (IsSound env inputs) (run env inputs max_steps fuel 0 0 e) r
        (run-Sound env inputs max_steps fuel 0 0 e (Works-IsSound env inputs e h)) eq

  -- A run from a job that is neither in verification nor completed, its counts within the limits,
  -- returns a job that was replanned and repaired at most as often as the limits allow, whatever
  -- planner, executions and verifier do.
  pub run-IsCounted :
      (fuel : ℕ) (e r : Engine)
      → IsAtWork env.limits e.job
      → run env inputs max_steps fuel 0 0 e ≡ some (ok r)
      → IsCounted env.limits r.job
  run-IsCounted fuel e r h eq = (run-IsSound fuel e r h eq).counted

  Judged-completed :
      (r : Engine)
      → Judged inputs r
      → r.job.state ≡ completed
      → (is_all_completed r.graph ≡ true)
        × ((n : ℕ) × (e0 : Engine) × ((inputs n).verify e0 ≡ ok passes) × (e0.graph ≡ r.graph))
  Judged-completed r (unjudged early) end = ground (arith, early, end)
  Judged-completed r (at_verifier there done) end = ground (arith, there, end)
  Judged-completed r (passed_by n e0 there done same by) end = (done, (n, e0, by, same))

  -- A run from a job that is neither in verification nor completed returns it COMPLETED only with
  -- every task that counts succeeded, and only if the verifier passed this very task graph.
  pub run-completed :
      (fuel : ℕ) (e r : Engine)
      → IsAtWork env.limits e.job
      → run env inputs max_steps fuel 0 0 e ≡ some (ok r)
      → r.job.state ≡ completed
      → (is_all_completed r.graph ≡ true)
        × ((n : ℕ) × (e0 : Engine) × ((inputs n).verify e0 ≡ ok passes) × (e0.graph ≡ r.graph))
  run-completed fuel e r h eq end = Judged-completed r (run-IsSound fuel e r h eq).judged end

  blocked_ends :
      (now : ℕ) (e : Engine)
      → Ensures (λ e'. is_terminal e' ≡ true) (transition_job env now blocked step_limit [] e)
  unfolding transition_job transition_to legal enter is_terminal is_terminal_state
  blocked_ends now e = ground arith

  close_ends :
      (round : ℕ) (e : Engine)
      → Ensures (λ e'. is_terminal e' ≡ true) (close env inputs max_steps round e)
  unfolding close
  close_ends round e =
      either (Ensures (λ e'. is_terminal e' ≡ true)) (is_terminal e) _ _ (λ p. p)
        (λ p. unfold transition_job in blocked_ends (inputs round).now e)

  abbrev counted_on : ℕ → (Engine → ℕ) → Result (Engine × Bool) → ℕ
  counted_on here later (err x) = 0
  counted_on here later (ok (e, goes_on)) = if goes_on then here + later e else 0

  -- The rounds of a run that find the job waiting for capacity.
  unfoldable pub waited : ℕ → ℕ → ℕ → Engine → ℕ
  unfolding is_terminal step
  waited zero round steps e = 0
  waited (suc fuel) round steps e =
      let later = waited fuel (suc round) (if is_waiting e.job.state then steps else suc steps) in
      let here = if is_waiting e.job.state then 1 else 0 in
      if is_terminal e || leb max_steps steps
      then 0
      else counted_on here later (step env (inputs round) e)

  -- The fuel was enough, and a job that is returned is at its end.
  abbrev pub Ends : Option (Result Engine) → Type 0
  Ends none = ⊥
  Ends (some r) = Ensures (λ e. is_terminal e ≡ true) r

  proceed-Ends :
      (fuel steps counted here round : ℕ) (rest : Engine → Option (Result Engine))
      (later : Engine → ℕ) (r : Result (Engine × Bool))
      → here + counted ≡ suc steps
      → max_steps + counted_on here later r < suc fuel + steps
      → ((e : Engine) → max_steps + later e < fuel + counted → Ends (rest e))
      → Ends (proceed env inputs max_steps round rest r)
  unfolding proceed
  proceed-Ends fuel steps counted here round rest later (err x) split room f = tt
  proceed-Ends fuel steps counted here round rest later (ok (e, true)) split room f =
      f e (omega (arith, split, room))
  proceed-Ends fuel steps counted here round rest later (ok (e, false)) split room f =
      close_ends round e

  loop-Ends :
      (fuel round steps : ℕ) (e : Engine)
      → steps ≤ max_steps
      → max_steps + waited fuel round steps e < fuel + steps
      → Ends (run env inputs max_steps fuel round steps e)
  unfolding run waited
  loop-Ends zero round steps e within room = ground (arith, within, room)
  loop-Ends (suc fuel) round steps e within room =
      let counted = if is_waiting e.job.state then steps else suc steps in
      let here : ℕ = if is_waiting e.job.state then 1 else 0 in
      either Ends (is_terminal e || leb max_steps steps) _ _ (λ p. close_ends round e)
        (λ p.
          proceed-Ends fuel steps counted here round
            (run env inputs max_steps fuel (suc round) counted) (waited fuel (suc round) counted)
            (step env (inputs round) e) (ground arith) (ground (arith, p, room))
            (λ e' more. loop-Ends fuel (suc round) counted e' (ground (arith, p)) more))

  -- A run that is given more rounds than the step limit and the rounds in which the job waits for
  -- capacity comes to an end: it raises, or it returns a job that is COMPLETED, BLOCKED, FAILED or
  -- CANCELLED.
  pub run-Ends :
      (fuel : ℕ) (e : Engine)
      → max_steps + waited fuel 0 0 e < fuel
      → Ends (run env inputs max_steps fuel 0 0 e)
  run-Ends fuel e room = loop-Ends fuel 0 0 e (ground arith) (ground (arith, room))
