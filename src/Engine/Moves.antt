-- ===== src/Engine/Moves.antt =====
-- runtime/engine.py: the transitions that the engine asks for are legal where it asks.
use mathlib.Core.Path.{subst}
use hermes_lab.Prelude.{◌>>=◌}
use hermes_lab.Prelude.{
  ℕ, ◌≡◌, sym, Option, none, some, [], ◌∷◌, Bool, true, false, not, ◌&&◌, ◌||◌, leb, ok, Result,
  Gives, gives_then, either, arith,
}
use hermes_lab.Dict.{Dict}
use hermes_lab.Task.{Value}
use hermes_lab.TaskGraph.{TaskGraph}
use hermes_lab.JobState.{
  State, planning, executing, repairing, blocked, JobRecord, legal, enter, transition_to, state_eq,
}
use hermes_lab.Replanning.{apply_mutations}
use hermes_lab.Engine.Defs.{
  Why, Env, Engine, PlanAnswer, transition_job, request_replan, transition_if_legal, apply_plan,
  replan_with, made_no_progress, plan_applied, no_progress, replan_limit, replanning,
}

-- A transition that does not raise.
unfoldable pub open_to : State → State → Bool
unfolding legal
open_to target s = state_eq target s || legal s target

-- A planner, where there is one, that raises nothing.
abbrev pub Answers : Option (JobRecord → TaskGraph → Result PlanAnswer) → Type 0
Answers none = Unit
Answers (some plan) = (j : JobRecord) (g : TaskGraph) → Gives (λ a. Unit) (plan j g)

-- The states in which a replan leaves a job.
abbrev pub reached : State → State → Bool
reached start s = state_eq start s || state_eq executing s || state_eq blocked s

abbrev pub is_replannable : State → Bool
is_replannable s = state_eq executing s || state_eq repairing s

module _ (env : Env) (now : ℕ) where
  pub moves :
      (target : State) (why : Why) (metadata : Dict Value) (e : Engine)
      → open_to target e.job.state ≡ true
      → Gives (λ e'. e'.job.state ≡ target) (transition_job env now target why metadata e)
  unfolding transition_job transition_to legal enter open_to
  moves target why metadata e h =
      gives_then (λ (j : JobRecord). j.state ≡ target) (λ (e' : Engine). e'.job.state ≡ target)
        (transition_to now target (some (env.say why)) metadata e.job)
        (λ j. ok (record e { job = j })) (ground (arith, h)) (λ j k. k)

  -- The end of a step, or of a replan, after a transition.
  pub moves_then :
      (target : State) (why : Why) (metadata : Dict Value) (e : Engine) (b : Bool)
      (P : State → Type 0)
      → open_to target e.job.state ≡ true
      → P target
      → Gives
          (λ (s : Engine × Bool). P s.0.job.state)
          (transition_job env now target why metadata e >>= λ e'. ok (e', b))
  moves_then target why metadata e b P h k =
      gives_then (λ (e' : Engine). e'.job.state ≡ target) (λ (s : Engine × Bool). P s.0.job.state)
        (transition_job env now target why metadata e) (λ e'. ok (e', b))
        (moves target why metadata e h) (λ e' at. subst P (sym at) k)

  if_legal_moves :
      (target : State) (why : Why) (metadata : Dict Value) (e : Engine)
      → legal e.job.state target ≡ true
      → Gives (λ e'. e'.job.state ≡ target) (transition_if_legal env now target why metadata e)
  unfolding transition_if_legal open_to
  if_legal_moves target why metadata e h =
      either (Gives (λ (e' : Engine). e'.job.state ≡ target)) (legal e.job.state target) _ _
        (λ p. moves target why metadata e (ground (arith, p))) (λ p. ground (arith, p, h))

  plan_moves :
      (start : State) (must_progress : Bool) (answer : PlanAnswer) (e : Engine)
      → e.job.state ≡ planning
      → Gives (λ s. reached start s.0.job.state ≡ true) (apply_plan env now must_progress answer e)
  unfolding apply_plan legal open_to
  plan_moves start must_progress answer e at =
      let g : TaskGraph = (apply_mutations now env.limits answer.mutations e.graph).0 in
      let changed : Engine = record e { graph = g } in
      either (Gives (λ (s : Engine × Bool). reached start s.0.job.state ≡ true))
        (made_no_progress env now answer g && must_progress) _ _
        (λ p.
          moves_then blocked no_progress [] changed false (λ x. reached start x ≡ true)
            (ground (arith, at)) (ground arith))
        (λ p.
          gives_then (λ (e' : Engine). e'.job.state ≡ executing)
            (λ (s : Engine × Bool). reached start s.0.job.state ≡ true)
            (transition_if_legal env now executing plan_applied [] changed)
            (λ e'. ok (e', not (made_no_progress env now answer g)))
            (if_legal_moves executing plan_applied [] changed (ground (arith, at)))
            (λ e' there. ground (arith, there)))

  replan_with_moves :
      (planner : Option (JobRecord → TaskGraph → Result PlanAnswer)) (detail : Value)
      (must_progress : Bool) (e : Engine)
      → Answers planner
      → is_replannable e.job.state ≡ true
      → Gives
          (λ s. reached e.job.state s.0.job.state ≡ true)
          (replan_with env now planner detail must_progress e)
  unfolding replan_with legal
  replan_with_moves none detail must_progress e answers at = ground (arith, at)
  replan_with_moves (some plan) detail must_progress e answers at =
      let why : Dict Value =
        ("replan_reason", env.say replanning) ∷ ("replan_detail", detail) ∷ [] in
      gives_then (λ (e1 : Engine). e1.job.state ≡ planning)
        (λ (s : Engine × Bool). reached e.job.state s.0.job.state ≡ true)
        (transition_if_legal env now planning replanning why e)
        (λ e1. plan e1.job e1.graph >>= λ answer. apply_plan env now must_progress answer e1)
        (if_legal_moves planning replanning why e (ground (arith, at)))
        (λ e1 there.
          gives_then (λ (answer : PlanAnswer). Unit)
            (λ (s : Engine × Bool). reached e.job.state s.0.job.state ≡ true) (plan e1.job e1.graph)
            (λ answer. apply_plan env now must_progress answer e1) (answers e1.job e1.graph)
            (λ answer k. plan_moves e.job.state must_progress answer e1 there))

  pub replan_moves :
      (detail : Value) (must_progress : Bool) (e : Engine)
      → Answers env.planner
      → is_replannable e.job.state ≡ true
      → Gives
          (λ s. reached e.job.state s.0.job.state ≡ true)
          (request_replan env now detail must_progress e)
  unfolding request_replan legal open_to
  replan_moves detail must_progress e answers at =
      either (Gives (λ (s : Engine × Bool). reached e.job.state s.0.job.state ≡ true))
        (leb env.limits.max_replans_per_job e.job.replan_count) _ _
        (λ p.
          moves_then blocked replan_limit [] e false (λ x. reached e.job.state x ≡ true)
            (ground (arith, at)) (ground arith))
        (λ p. replan_with_moves env.planner detail must_progress e answers at)
