-- ===== src/Engine/Executing.antt =====
-- runtime/engine.py: what a step in EXECUTING or in WAITING_FOR_CAPACITY keeps of a job.
use hermes_lab.Prelude.{
  ℕ, refl, [], ◌++◌, map, true, false, not, ◌&&◌, ◌||◌, ltb, ok, Ensures, and_then, whatever,
  weaken, either,
}
use hermes_lab.TaskGraph.Queries.{
  find_ready_tasks, has_running_tasks, has_failed_tasks, is_stalled, is_all_completed,
}
use hermes_lab.JobState.{executing, waiting_for_capacity, blocked}
use hermes_lab.Scheduler.Rounds.{Launch, schedule_ready_tasks}
use hermes_lab.Engine.Defs.{
  Why, Env, Engine, is_terminal, request_replan, replanning, capacity_back, waits_for_capacity,
  unproven_again, by_environment, tasks_failed, deadlock,
}
use hermes_lab.Engine.Batch.{Tally, nothing}
use hermes_lab.Engine.Steps.{
  Input, is_nil, cancel_active, stop, while_open, to_state, can_run, step_waiting, waits,
  replan_or_block, check_graph, first_time, after_batch, wait_for_one, after_round, round_of,
  step_executing,
}
use hermes_lab.Engine.AtWork.{IsCounted, Works, Worked, Taken, plain-Works, request_replan-Works}
use hermes_lab.Engine.Batches.{take_all-Taken}
use hermes_lab.Engine.Sound.{Sound, Works-IsSound, verifying-Sound, plain-Sound}

module _ (env : Env) (inputs : ℕ → Input) (round : ℕ) where
  replan_or_block-Worked :
      (why : Why) (e : Engine)
      → Works env e
      → Ensures (Worked env) (replan_or_block env (inputs round) why e)
  unfolding replan_or_block while_open
  replan_or_block-Worked why e h =
      and_then (Worked env) (Worked env)
        (request_replan env (inputs round).now (env.say why) true e) _
        (request_replan-Works env (inputs round).now (env.say why) true e h)
        (λ s k.
          either (Ensures (Worked env)) (not s.1 && not (is_terminal s.0)) _ _
            (λ p.
              and_then (Works env) (Worked env) (to_state env (inputs round) blocked why s.0)
                while_open (plain-Works env (inputs round).now blocked why [] s.0 refl k.counted)
                (λ e' l. l))
            (λ p. k))

  check_graph-Sound :
      (e : Engine) → Works env e → Ensures (Sound env inputs) (check_graph env (inputs round) e)
  unfolding check_graph while_open
  check_graph-Sound e h =
      let fixed : (why : Why)
          → Ensures (Sound env inputs) (replan_or_block env (inputs round) why e) =
        λ why.
          weaken (Worked env) (Sound env inputs) _ (replan_or_block-Worked why e h)
            (λ s k. Works-IsSound env inputs s.0 k) in
      either (Ensures (Sound env inputs)) (is_terminal e) _ _
        (λ p. Works-IsSound env inputs (cancel_active e) h)
        (λ p.
          either (Ensures (Sound env inputs)) (is_all_completed e.graph) _ _
            (λ q. verifying-Sound env inputs round e q h.counted)
            (λ q.
              either (Ensures (Sound env inputs))
                (has_failed_tasks e.graph && not (has_running_tasks e.graph)) _ _
                (λ r. fixed tasks_failed)
                (λ r.
                  either (Ensures (Sound env inputs)) (is_stalled e.graph) _ _ (λ t. fixed deadlock)
                    (λ t. Works-IsSound env inputs e h))))

  stop-Sound :
      (why : Why) (e : Engine)
      → IsCounted env.limits e.job
      → Ensures (Sound env inputs) (stop (to_state env (inputs round) blocked why e))
  stop-Sound why e h =
      plain-Sound env inputs round blocked why e (λ e'. (cancel_active e', false)) refl h
        (λ e' w. w)

  after_batch-Sound :
      (s : Engine × Tally)
      → Taken env s
      → Ensures (Sound env inputs) (after_batch env (inputs round) s)
  unfolding after_batch
  after_batch-Sound (e, t) h =
      let follow_ups = first_time env (inputs round) e.discovery_triggered t.follow_ups in
      let noted : Engine = record e { discovery_triggered = e.discovery_triggered ++ follow_ups } in
      either (Ensures (Sound env inputs)) (ltb 0 t.unproven_again) _ _
        (λ p. stop-Sound unproven_again e h.counted)
        (λ p.
          either (Ensures (Sound env inputs)) (ltb 0 t.by_environment) _ _
            (λ q. stop-Sound by_environment e h.counted)
            (λ q.
              either (Ensures (Sound env inputs)) (not (is_nil follow_ups) || ltb 0 t.replans) _ _
                (λ r.
                  and_then (Worked env) (Sound env inputs) _
                    (λ s. check_graph env (inputs round) s.0)
                    (request_replan-Works env (inputs round).now (env.say replanning) false noted h)
                    (λ s k. check_graph-Sound s.0 k))
                (λ r. check_graph-Sound e h)))

  wait_for_one-Sound :
      (e : Engine) → Works env e → Ensures (Sound env inputs) (wait_for_one env (inputs round) e)
  unfolding wait_for_one
  wait_for_one-Sound e h =
      let w = (inputs round).wait e in
      let e' : Engine = record e {
        slots = w.slots;
        services = w.services;
        graph = w.graph;
        active = w.still_active;
      } in
      and_then (Taken env) (Sound env inputs) _ (after_batch env (inputs round))
        (take_all-Taken env (inputs round).now w.ended (e', nothing) h) after_batch-Sound

  after_round-Sound :
      (e : Engine) → Works env e → Ensures (Sound env inputs) (after_round env (inputs round) e)
  unfolding after_round
  after_round-Sound e h =
      let looked = waits env (inputs round) (find_ready_tasks e.graph) e.slots e.services in
      let e' : Engine = record e { services = looked.0 } in
      either (Ensures (Sound env inputs)) (not (is_nil e.active)) _ _ (λ p. wait_for_one-Sound e h)
        (λ p.
          either (Ensures (Sound env inputs)) looked.1 _ _
            (λ q.
              plain-Sound env inputs round waiting_for_capacity waits_for_capacity e'
                (λ x. (x, true)) refl h.counted (λ x w. w))
            (λ q. check_graph-Sound e' h))

  round_of-Works : (e : Engine) → Works env e → Ensures (Works env) (round_of env (inputs round) e)
  unfolding round_of
  round_of-Works e h =
      whatever (Works env)
        (schedule_ready_tasks env.setting (inputs round).now
          (record { slots = e.slots; services = e.services; graph = e.graph; launched = [] }))
        (λ r. ok (record e {
          slots = r.slots;
          services = r.services;
          graph = r.graph;
          active = e.active ++ map (λ (l : Launch). l.task.task_id) r.launched;
        }))
        (λ r. h)

  pub step_executing-Sound :
      (e : Engine) → Works env e → Ensures (Sound env inputs) (step_executing env (inputs round) e)
  unfolding step_executing
  step_executing-Sound e h =
      either (Ensures (Sound env inputs)) (is_all_completed e.graph) _ _
        (λ p. verifying-Sound env inputs round e p h.counted)
        (λ p.
          and_then (Works env) (Sound env inputs) (round_of env (inputs round) e)
            (after_round env (inputs round)) (round_of-Works e h) after_round-Sound)

  pub step_waiting-Sound :
      (e : Engine) → Works env e → Ensures (Sound env inputs) (step_waiting env (inputs round) e)
  unfolding step_waiting
  step_waiting-Sound e h =
      let looked = can_run env (inputs round) (find_ready_tasks e.graph) e.slots e.services in
      let e' : Engine = record e { services = looked.0 } in
      either (Ensures (Sound env inputs)) looked.1 _ _
        (λ p.
          plain-Sound env inputs round executing capacity_back e' (λ x. (x, true)) refl h.counted
            (λ x w. w))
        (λ p. Works-IsSound env inputs e' h)
