-- ===== src/Engine/Loop.antt =====
-- runtime/engine.py: the verification of a job, `step` as a whole, and `run_until_complete`. The loop
-- has fuel, since a job may wait for capacity as long as it will.
use Prim.Native.String.{◌++◌}
use hermes_lab.Prelude.{◌>>=◌}
use hermes_lab.Prelude.{
  ℕ, zero, suc, Option, none, some, List, [], ◌∷◌, Bool, true, false, ◌||◌, if◌then◌else◌, leb,
  is_some, or_unchanged, Result, ok, err,
}
use hermes_lab.Task.{TaskNode}
use hermes_lab.TaskGraph.{TaskGraph, add_task}
use hermes_lab.JobState.{
  State, created, executing, waiting_for_capacity, verifying, repairing, completed, blocked, failed,
}
use hermes_lab.Replanning.{capped}
use hermes_lab.Engine.Defs.{
  Why, Env, Engine, is_terminal, initialize_and_plan, transition_job, request_replan,
}
use hermes_lab.Engine.Repairs.{fresh_node}
use hermes_lab.Engine.Steps.{
  Input, Verification, passes, by_environment, fails, repairable, go_on, while_open, to_state,
  step_waiting, step_executing,
}

abbrev added {ℓ} : {A : Type ℓ} → Result A → Bool
added (ok a) = true
added (err x) = false

module _ (env : Env) (input : Input) where
  -- The recommended tasks that have new ids, and whether there was one.
  unfoldable pub add_recommended : List TaskNode → TaskGraph → TaskGraph × Bool
  unfolding add_task
  add_recommended [] g = (g, false)
  add_recommended (t ∷ ts) g =
      let (g', rest) = add_recommended ts (or_unchanged g (add_task (capped env.limits t) g)) in
      (g', added (add_task (capped env.limits t) g) || rest)

  -- A planner, where there is one, may plan the repair.
  unfoldable pub plan_repair : Engine × Bool → Result (Engine × Bool)
  unfolding request_replan
  plan_repair (e, found) =
      if is_some env.planner
      then (request_replan env input.now (env.say Why.repairs_planned) true e
          >>= λ (r : Engine × Bool). ok (r.0, true))
      else ok (e, found)

  -- The task that stands in where nothing else was planned.
  unfoldable pub add_default : Engine → Engine
  unfolding add_task
  add_default e =
      let node : TaskNode =
        record (fresh_node env input.now ("repair_task_" ++ env.show e.job.repair_count)
          e.job.job_id) { required_capabilities = "implementation" ∷ [] } in
      record e { graph = or_unchanged e.graph (add_task (capped env.limits node) e.graph) }

  unfoldable pub resume_repair : Engine × Bool → Result (Engine × Bool)
  unfolding is_terminal add_default transition_job
  resume_repair (e, found) =
      if is_terminal e
      then ok (e, false)
      else go_on
          (to_state env input executing Why.repairs_planned (if found then e else add_default e))

  abbrev pub end_step : Result Engine → Result (Engine × Bool)
  end_step r = r >>= λ e. ok (e, false)

  unfoldable pub repair_cycle : List TaskNode → Engine → Result (Engine × Bool)
  unfolding transition_job add_recommended plan_repair resume_repair
  repair_cycle recommended e =
      let again = do
        e1 ← to_state env input repairing Why.repairing_again e
        let grown = add_recommended recommended e1.graph
        let e2 : Engine = record e1 { graph = grown.0 }
        r ← plan_repair (e2, grown.1)
        resume_repair r
      in if leb env.limits.max_repairs_per_job e.job.repair_count
        then end_step (to_state env input blocked Why.repairs_used e)
        else again

  unfoldable pub step_verifying : Verification → Engine → Result (Engine × Bool)
  unfolding transition_job repair_cycle
  step_verifying passes e = end_step (to_state env input completed Why.passed e)
  step_verifying by_environment e = end_step (to_state env input blocked Why.verifier_environment e)
  step_verifying (repairable recommended) e = repair_cycle recommended e
  step_verifying fails e = end_step (to_state env input failed Why.irreparable e)

  unfoldable pub step_in : State → Engine → Result (Engine × Bool)
  unfolding initialize_and_plan while_open step_waiting step_executing step_verifying
  step_in created e = initialize_and_plan env input.now [] e >>= while_open
  step_in waiting_for_capacity e = step_waiting env input e
  step_in executing e = step_executing env input e
  step_in verifying e = input.verify e >>= λ v. step_verifying v e
  step_in _ e = ok (e, false)

  unfoldable pub step : Engine → Result (Engine × Bool)
  unfolding step_in is_terminal
  step e = if is_terminal e || e.fenced then ok (e, false) else step_in e.job.state e

abbrev pub is_waiting : State → Bool
is_waiting waiting_for_capacity = true
is_waiting _ = false

module _ (env : Env) (inputs : ℕ → Input) (max_steps : ℕ) where
  -- After the loop: a job that is still open has used up its steps.
  unfoldable pub close : ℕ → Engine → Result Engine
  unfolding is_terminal transition_job
  close round e =
      if is_terminal e then ok e else to_state env (inputs round) blocked Why.step_limit e

  -- The end of the loop's body.
  unfoldable pub proceed :
      ℕ → (Engine → Option (Result Engine)) → Result (Engine × Bool) → Option (Result Engine)
  unfolding close
  proceed round rest (err x) = some (err x)
  proceed round rest (ok (e, goes_on)) = if goes_on then rest e else some (close round e)

  -- The loop from its round `round` on, after `steps` counted steps; `none` where the fuel runs out.
  unfoldable pub run : ℕ → ℕ → ℕ → Engine → Option (Result Engine)
  unfolding is_terminal step close proceed
  run zero round steps e = none
  run (suc fuel) round steps e =
      let rest = run fuel (suc round) (if is_waiting e.job.state then steps else suc steps) in
      if is_terminal e || leb max_steps steps
      then some (close round e)
      else proceed round rest (step env (inputs round) e)
