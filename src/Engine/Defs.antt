-- ===== src/Engine/Defs.antt =====
-- runtime/engine.py: the state of `ReactiveJobEngine`, its transitions and its plans. `Env` is what
-- the engine is set up with. The store of events is taken to accept every event; the planner, which may
-- raise, and the verifier are arguments. A text of a reason is `say` of what it tells.
use hermes_lab.Prelude.{◌>>=◌}
use hermes_lab.Prelude.{
  ℕ, String, Option, none, some, List, [], ◌∷◌, Bool, false, not, ◌&&◌, ◌||◌, if◌then◌else◌, leb,
  eqb, Result, ok, or_unchanged,
}
use hermes_lab.Dict.{Dict}
use hermes_lab.Limits.{RuntimeLimits}
use hermes_lab.Task.{Value, TaskNode}
use hermes_lab.TaskGraph.{TaskGraph, add_task}
use hermes_lab.TaskGraph.Queries.{count, has_active_tasks, is_all_completed}
use hermes_lab.JobState
use hermes_lab.JobState.{State, created, planning, executing, blocked, JobRecord, legal}
use hermes_lab.Replanning.{GraphMutation, capped, apply_mutations}
use hermes_lab.Scheduler.{Services}
use hermes_lab.Scheduler.Slots.{Slots}
use hermes_lab.Scheduler.Reasons.{Setting}

-- What the reason of a transition tells.
pub data Why : Type 0 where
  first_plan plan_made nothing_planned replan_limit replanning no_progress plan_applied
        capacity_back all_done waits_for_capacity unproven_again by_environment tasks_failed
        deadlock passed verifier_environment repairs_used repairing_again repairs_planned
        irreparable not_converging step_limit :
      Why

-- ReplanResult, without the explanation
pub record PlanAnswer : Type 0 where
  pub mutations : List GraphMutation
  pub should_continue : Bool

-- The engine is set up with a scheduler, limits, a planner, whether the planner leaves failed verdicts
-- to the engine, and the functions on texts: `str` of a number, the number at the end of an id, 1
-- where there is none, and startswith with the prefix first.
pub record Env : Type 0 where
  pub setting : Setting
  pub limits : RuntimeLimits
  pub planner : Option (JobRecord → TaskGraph → Result PlanAnswer)
  pub repairs_verdicts : Bool
  pub show : ℕ → String
  pub suffix : String → ℕ
  pub starts : String → String → Bool
  pub say : Why → Value

pub record Engine : Type 0 where
  pub job : JobRecord
  pub graph : TaskGraph
  pub slots : Slots
  pub services : Services
  pub active : List String
  pub discovery_triggered : List String
  pub fenced : Bool

unfoldable pub is_terminal : Engine → Bool
unfolding JobState.is_terminal
is_terminal e = JobState.is_terminal e.job

-- The loop over initial tasks: it stops at the limit, and passes over an id that is taken.
unfoldable pub add_initial : RuntimeLimits → List TaskNode → TaskGraph → TaskGraph
unfolding count add_task
add_initial limits [] g = g
add_initial limits (t ∷ ts) g =
    let rest = add_initial limits ts (or_unchanged g (add_task (capped limits t) g)) in
    if leb limits.max_tasks_per_job (count g) then g else rest

module _ (env : Env) (now : ℕ) where
  -- `_transition_job`
  unfoldable pub transition_job : State → Why → Dict Value → Engine → Result Engine
  unfolding JobState.transition_to
  transition_job target why metadata e = do
    job ← JobState.transition_to now target (some (env.say why)) metadata e.job
    ok (record e { job = job })

  unfoldable pub planned :
      Option (JobRecord → TaskGraph → Result PlanAnswer) → Engine → Result TaskGraph
  unfolding apply_mutations
  planned none e = ok e.graph
  planned (some plan) e = plan e.job e.graph >>= λ (answer : PlanAnswer).
      ok (apply_mutations now env.limits answer.mutations e.graph).0

  -- `initialize_and_plan` from a job that is CREATED
  unfoldable pub initialize_and_plan : List TaskNode → Engine → Result Engine
  unfolding transition_job add_initial planned count
  initialize_and_plan tasks e = do
    e1 ← transition_job planning first_plan [] e
    let filled : Engine = record e1 { graph = add_initial env.limits tasks e1.graph }
    g ← planned env.planner filled
    let e2 : Engine = record filled { graph = g }
    if eqb (count e2.graph) 0
        then transition_job blocked nothing_planned [] e2
        else transition_job executing plan_made [] e2

  -- A transition that is made only where it is legal.
  unfoldable pub transition_if_legal : State → Why → Dict Value → Engine → Result Engine
  unfolding transition_job legal
  transition_if_legal target why metadata e =
      if legal e.job.state target then transition_job target why metadata e else ok e

  -- `made_no_progress`
  unfoldable pub made_no_progress : PlanAnswer → TaskGraph → Bool
  unfolding has_active_tasks is_all_completed
  made_no_progress answer g =
      not answer.should_continue || (not (has_active_tasks g) && not (is_all_completed g))

  -- `request_replan` from the answer of the planner on
  unfoldable pub apply_plan : Bool → PlanAnswer → Engine → Result (Engine × Bool)
  unfolding apply_mutations made_no_progress transition_job transition_if_legal
  apply_plan must_progress answer e = do
    let g : TaskGraph = (apply_mutations now env.limits answer.mutations e.graph).0
    let changed : Engine = record e { graph = g }
    if made_no_progress answer g && must_progress
        then (transition_job blocked no_progress [] changed >>= λ e'. ok (e', false))
        else (transition_if_legal executing plan_applied [] changed >>= λ e'.
            ok (e', not (made_no_progress answer g)))

  unfoldable pub replan_with :
      Option (JobRecord → TaskGraph → Result PlanAnswer)
      → Value
      → Bool
      → Engine
      → Result (Engine × Bool)
  unfolding transition_if_legal apply_plan
  replan_with none detail must_progress e = ok (e, false)
  replan_with (some plan) detail must_progress e = do
    e1 ←
        transition_if_legal planning replanning
          (("replan_reason", env.say replanning) ∷ ("replan_detail", detail) ∷ []) e
    answer ← plan e1.job e1.graph
    apply_plan must_progress answer e1

  unfoldable pub request_replan : Value → Bool → Engine → Result (Engine × Bool)
  unfolding transition_job replan_with
  request_replan detail must_progress e =
      if leb env.limits.max_replans_per_job e.job.replan_count
      then (transition_job blocked replan_limit [] e >>= λ e'. ok (e', false))
      else replan_with env.planner detail must_progress e
