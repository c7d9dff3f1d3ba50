-- ===== src/Engine/Steps.antt =====
-- runtime/engine.py: `step` and `run_until_complete`. What happens outside the engine during a step is
-- its input: the wait for an execution to end, in which the executions write to the registries and
-- the graph, and the answer of the verifier. A cancelled execution's own writes are left out.
use hermes_lab.Prelude.{◌>>=◌}
use hermes_lab.Prelude.{
  ℕ, String, List, [], ◌∷◌, ◌++◌, map, Bool, true, false, not, ◌&&◌, ◌||◌, if◌then◌else◌, ltb,
  is_some, keep, elem, Result, ok,
}
use hermes_lab.Task.{TaskNode}
use hermes_lab.TaskGraph.{TaskGraph}
use hermes_lab.TaskGraph.Queries.{
  find_ready_tasks, has_running_tasks, has_failed_tasks, is_stalled, is_all_completed,
}
use hermes_lab.JobState.{State, executing, waiting_for_capacity, verifying, blocked}
use hermes_lab.Scheduler.{Services}
use hermes_lab.Scheduler.Slots.{Slots}
use hermes_lab.Scheduler.Reasons.{is_no_capable}
use hermes_lab.Scheduler.Choosing.{match_actor_for_task}
use hermes_lab.Scheduler.Rounds.{Launch, schedule_ready_tasks, target}
use hermes_lab.Engine.Defs.{Why, Env, Engine, is_terminal, transition_job, request_replan}
use hermes_lab.Engine.Repairs.{Ended}
use hermes_lab.Engine.Batch.{Tally, nothing, take_all}

-- What stands when a wait is over.
pub record Wait : Type 0 where
  pub slots : Slots
  pub services : Services
  pub graph : TaskGraph
  pub ended : List (Result Ended)
  pub still_active : List String

-- VerificationResult: passed, blocked by the environment, repairable with recommended tasks, or none
-- of these.
pub data Verification : Type 0 where
  passes by_environment fails : Verification
  repairable : List TaskNode → Verification

pub record Input : Type 0 where
  pub now : ℕ
  pub wait : Engine → Wait
  pub verify : Engine → Result Verification

abbrev pub is_nil {ℓ} : {A : Type ℓ} → List A → Bool
is_nil [] = true
is_nil (x ∷ xs) = false

-- `_cancel_active_tasks`
abbrev pub cancel_active : Engine → Engine
cancel_active e = record e { active = [] }

-- The step goes on, or it ends the loop.
abbrev pub stop : Result Engine → Result (Engine × Bool)
stop r = r >>= λ e. ok (cancel_active e, false)

abbrev pub go_on : Result Engine → Result (Engine × Bool)
go_on r = r >>= λ e. ok (e, true)

unfoldable pub while_open : Engine → Result (Engine × Bool)
unfolding is_terminal
while_open e = ok (e, not (is_terminal e))

module _ (env : Env) (input : Input) where
  abbrev pub to_state : State → Why → Engine → Result Engine
  unfolding transition_job
  to_state s why e = transition_job env input.now s why [] e

  -- Is there a ready task that some actor takes? The loop ends with the first.
  unfoldable pub can_run : List TaskNode → Slots → Services → Services × Bool
  unfolding match_actor_for_task target
  can_run [] slots v = (v, false)
  can_run (t ∷ ts) slots v =
      let (v', d) = match_actor_for_task env.setting input.now slots t [] [] v in
      let rest = can_run ts slots v' in if is_some (target d) then (v', true) else rest

  unfoldable pub step_waiting : Engine → Result (Engine × Bool)
  unfolding can_run find_ready_tasks transition_job
  step_waiting e =
      let (v, free) = can_run (find_ready_tasks e.graph) e.slots e.services in
      let e' : Engine = record e { services = v } in
      if free then go_on (to_state executing Why.capacity_back e') else ok (e', true)

  -- Is there a ready task that waits for an actor? The loop asks for every ready task.
  unfoldable pub waits : List TaskNode → Slots → Services → Services × Bool
  unfolding match_actor_for_task
  waits [] slots v = (v, false)
  waits (t ∷ ts) slots v =
      let (v', d) = match_actor_for_task env.setting input.now slots t [] [] v in
      let (w, others) = waits ts slots v' in (w, not (is_no_capable d.reason) || others)

  -- A replan, and BLOCKED where it comes to nothing.
  unfoldable pub replan_or_block : Why → Engine → Result (Engine × Bool)
  unfolding request_replan transition_job while_open is_terminal
  replan_or_block why e = do
    (e', replanned) ← request_replan env input.now (env.say why) true e
    if not replanned && not (is_terminal e')
        then (to_state blocked why e' >>= while_open)
        else while_open e'

  -- The checks at the end of a step in EXECUTING.
  unfoldable pub check_graph : Engine → Result (Engine × Bool)
  unfolding is_terminal is_all_completed has_failed_tasks has_running_tasks is_stalled
      replan_or_block transition_job while_open
  check_graph e =
      if is_terminal e
      then ok (cancel_active e, false)
      else if is_all_completed e.graph
      then go_on (to_state verifying Why.all_done e)
      else if has_failed_tasks e.graph && not (has_running_tasks e.graph)
      then replan_or_block Why.tasks_failed e
      else if is_stalled e.graph
      then replan_or_block Why.deadlock e
      else while_open e

  -- The observations that ask for follow-up work for the first time.
  unfoldable pub first_time : List String → List String → List String
  unfolding keep elem
  first_time known = keep (λ id. not (elem id known))

  unfoldable pub after_batch : Engine × Tally → Result (Engine × Bool)
  unfolding transition_job request_replan check_graph first_time
  after_batch (e, t) =
      let follow_ups = first_time e.discovery_triggered t.follow_ups in
      let noted : Engine = record e { discovery_triggered = e.discovery_triggered ++ follow_ups } in
      if ltb 0 t.unproven_again
      then stop (to_state blocked Why.unproven_again e)
      else if ltb 0 t.by_environment
      then stop (to_state blocked Why.by_environment e)
      else if not (is_nil follow_ups) || ltb 0 t.replans
      then (request_replan env input.now (env.say Why.replanning) false noted
          >>= λ (r : Engine × Bool). check_graph r.0)
      else check_graph e

  unfoldable pub wait_for_one : Engine → Result (Engine × Bool)
  unfolding take_all after_batch
  wait_for_one e =
      let w = input.wait e in
      let e' : Engine = record e {
        slots = w.slots;
        services = w.services;
        graph = w.graph;
        active = w.still_active;
      } in
      take_all env input.now w.ended (e', nothing) >>= after_batch

  -- After a round of the scheduler.
  unfoldable pub after_round : Engine → Result (Engine × Bool)
  unfolding waits find_ready_tasks transition_job wait_for_one check_graph
  after_round e =
      let (v, waiting) = waits (find_ready_tasks e.graph) e.slots e.services in
      let e' : Engine = record e { services = v } in
      if not (is_nil e.active)
      then wait_for_one e
      else if waiting
      then go_on (to_state waiting_for_capacity Why.waits_for_capacity e')
      else check_graph e'

  unfoldable pub round_of : Engine → Result Engine
  unfolding schedule_ready_tasks
  round_of e = do
    r ←
        schedule_ready_tasks env.setting input.now
          (record { slots = e.slots; services = e.services; graph = e.graph; launched = [] })
    ok (record e {
      slots = r.slots;
      services = r.services;
      graph = r.graph;
      active = e.active ++ map (λ (l : Launch). l.task.task_id) r.launched;
    })

  unfoldable pub step_executing : Engine → Result (Engine × Bool)
  unfolding is_all_completed round_of after_round transition_job
  step_executing e =
      let rest = round_of e >>= after_round in
      if is_all_completed e.graph then go_on (to_state verifying Why.all_done e) else rest
