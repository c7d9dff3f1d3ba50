-- ===== src/Engine/Raises.antt =====
-- runtime/engine.py: a step raises nothing.
use mathlib.Core.Path.{subst}
use hermes_lab.Prelude.{
  ◌≡◌, refl, sym, ap, ◌∙◌, Option, none, some, List, [], ◌∷◌, ◌++◌, Bool, true, false, not, ◌==◌,
  ◌&&◌, ◌||◌, if◌then◌else◌, ltb, is_some, Result, ok, err, Gives, gives_then, either, arith,
}
use hermes_lab.Dict.{Dict, lookup}
use hermes_lab.Task.{Value}
use hermes_lab.TaskGraph.Queries.{
  find_ready_tasks, has_running_tasks, has_failed_tasks, is_stalled, is_all_completed,
}
use hermes_lab.JobState
use hermes_lab.JobState.{
  State, created, planning, executing, waiting_for_capacity, verifying, repairing, completed,
  blocked, failed, cancelled, JobRecord, legal, is_terminal_state,
}
use hermes_lab.Scheduler.Rounds.{is_true}
use hermes_lab.Engine.Defs.{
  Why, Env, Engine, is_terminal, transition_job, request_replan, all_done, waits_for_capacity,
  unproven_again, by_environment, tasks_failed, deadlock, replanning,
}
use hermes_lab.Engine.Repairs.{meta_of, Ended, text_of, repair_failed_verdict, is_repairable}
use hermes_lab.Engine.Batch.{
  Tally, nothing, take_unproven, ask_replan, take_verdict, take_ended, take_all, with_commit,
  is_unproven,
}
use hermes_lab.Engine.Steps.{
  Input, is_nil, cancel_active, stop, while_open, waits, replan_or_block, check_graph, first_time,
  after_batch, wait_for_one, after_round,
}
use hermes_lab.Engine.Moves.{Answers, moves, moves_then, replan_moves, open_to, reached}

-- A value is returned.
abbrev pub Returned {ℓ} : {A : Type ℓ} → Result A → Type 0
Returned = Gives (λ a. Unit)

-- No execution has raised, and each has metadata.
abbrev pub AllFine : List (Result Ended) → Type 0
AllFine [] = Unit
AllFine (ok x ∷ rs) = (is_some x.metadata ≡ true) × AllFine rs
AllFine (err x ∷ rs) = ⊥

module _ (env : Env) (input : Input) (answers : Answers env.planner) where
  -- The job is where a batch of executions finds it.
  IsExecuting : Engine → Type 0
  IsExecuting e = e.job.state ≡ executing

  replan_or_block-Returned :
      (why : Why) (e : Engine)
      → e.job.state ≡ executing
      → Returned (replan_or_block env input why e)
  unfolding replan_or_block open_to legal is_terminal JobState.is_terminal is_terminal_state
      while_open
  replan_or_block-Returned why e at =
      gives_then (λ (s : Engine × Bool). reached e.job.state s.0.job.state ≡ true) (λ s. Unit)
        (request_replan env input.now (env.say why) true e) _
        (replan_moves env input.now (env.say why) true e answers (ground (arith, at)))
        (λ s h.
          either Returned (not s.1 && not (is_terminal s.0)) _ _
            (λ p.
              gives_then (λ (e' : Engine). e'.job.state ≡ blocked) (λ s. Unit)
                (transition_job env input.now blocked why [] s.0) while_open
                (moves env input.now blocked why [] s.0 (ground (arith, p, h, at))) (λ e' k. tt))
            (λ p. tt))

  check_graph-Returned :
      (e : Engine) → reached executing e.job.state ≡ true → Returned (check_graph env input e)
  unfolding check_graph open_to legal is_terminal JobState.is_terminal is_terminal_state while_open
      transition_job
  check_graph-Returned e h =
      either Returned (is_terminal e) _ _ (λ p. tt)
        (λ p.
          let at : e.job.state ≡ executing = ground (arith, p, h) in
          either Returned (is_all_completed e.graph) _ _
            (λ q.
              moves_then env input.now verifying all_done [] e true (λ x. Unit) (ground (arith, at))
                tt)
            (λ q.
              either Returned (has_failed_tasks e.graph && not (has_running_tasks e.graph)) _ _
                (λ r. replan_or_block-Returned tasks_failed e at)
                (λ r.
                  either Returned (is_stalled e.graph) _ _
                    (λ t. replan_or_block-Returned deadlock e at) (λ t. tt))))

  -- A planner that does not leave failed verdicts to the engine: a batch leaves the job alone.
  module _ (own : env.repairs_verdicts ≡ false)
      (fine : (e : Engine) → AllFine (input.wait e).ended) where
    not_handled : (x : Ended) (e : Engine) → repair_failed_verdict env input.now x e ≡ ok (e, false)
    unfolding repair_failed_verdict
    not_handled x e =
        either (λ (r : Result (Engine × Bool)). r ≡ ok (e, false))
          (not (env.repairs_verdicts && is_repairable env input.now x)) _ _ (λ p. refl)
          (λ p. ground (arith, p, own))

    ask_same :
        (d : Option (Dict Value)) (s : Engine × Tally)
        → is_some d ≡ true
        → Gives (λ (s' : Engine × Tally). s'.0.job ≡ s.0.job) (ask_replan env input.now d s)
    unfolding ask_replan
    ask_same none s h = ground (arith, h)
    ask_same (some d) (e, t) h = refl

    verdict_same :
        (x : Ended) (s : Engine × Tally)
        → is_some x.metadata ≡ true
        → Gives (λ (s' : Engine × Tally). s'.0.job ≡ s.0.job) (take_verdict env input.now x s)
    unfolding take_verdict
    verdict_same x (e, t) h =
        gives_then (λ (r : Engine × Bool). r ≡ (e, false))
          (λ (s' : Engine × Tally). s'.0.job ≡ e.job) (repair_failed_verdict env input.now x e)
          (λ r. if r.1 then ok (r.0, t) else ask_replan env input.now x.metadata (r.0, t))
          (subst (Gives (λ (r : Engine × Bool). r ≡ (e, false))) (sym (not_handled x e)) refl)
          (λ r same.
            subst
              (λ (q : Engine × Bool).
                Gives (λ (s' : Engine × Tally). s'.0.job ≡ e.job)
                  (if q.1 then ok (q.0, t) else ask_replan env input.now x.metadata (q.0, t)))
              (sym same) (ask_same x.metadata (e, t) h))

    ended_same :
        (x : Ended) (s : Engine × Tally)
        → is_some x.metadata ≡ true
        → Gives (λ (s' : Engine × Tally). s'.0.job ≡ s.0.job) (take_ended env input.now x s)
    unfolding take_ended take_unproven
    ended_same x (e, t) h =
        either (Gives (λ (s' : Engine × Tally). s'.0.job ≡ e.job))
          (env.setting.lower (text_of (lookup "blocked_by" (meta_of x))) == "environment") _ _
          (λ p. refl)
          (λ p.
            either (Gives (λ (s' : Engine × Tally). s'.0.job ≡ e.job)) (is_unproven env input.now x)
              _ _
              (λ q.
                either (λ (s' : Engine × Tally). s'.0.job ≡ e.job)
                  (is_true (lookup "had_unproven" x.task.metadata)) _ _ (λ r. refl) (λ r. refl))
              (λ q.
                verdict_same
                  (record x {
                    task = with_commit env input.now (lookup "commit_sha" (meta_of x)) x.task;
                  })
                  _ h))

    all_same :
        (rs : List (Result Ended)) (s : Engine × Tally)
        → AllFine rs
        → Gives (λ (s' : Engine × Tally). s'.0.job ≡ s.0.job) (take_all env input.now rs s)
    unfolding take_all
    all_same [] s h = refl
    all_same (err x ∷ rs) s h = absurd h
    all_same (ok x ∷ rs) s h =
        gives_then (λ (s' : Engine × Tally). s'.0.job ≡ s.0.job)
          (λ (s' : Engine × Tally). s'.0.job ≡ s.0.job) (take_ended env input.now x s)
          (take_all env input.now rs) (ended_same x s h.0)
          (λ s' same.
            subst (λ j. Gives (λ (u : Engine × Tally). u.0.job ≡ j) (take_all env input.now rs s'))
              same (all_same rs s' h.1))

    after_batch-Returned :
        (s : Engine × Tally) → s.0.job.state ≡ executing → Returned (after_batch env input s)
    unfolding after_batch open_to legal transition_job
    after_batch-Returned (e, t) at =
        let follow_ups = first_time env input e.discovery_triggered t.follow_ups in
        let noted : Engine = record e {
          discovery_triggered = e.discovery_triggered ++ follow_ups;
        } in
        let stops : (why : Why) → Returned (stop (transition_job env input.now blocked why [] e)) =
          λ why.
            gives_then (λ (e' : Engine). e'.job.state ≡ blocked) (λ s. Unit)
              (transition_job env input.now blocked why [] e) (λ e'. ok (cancel_active e', false))
              (moves env input.now blocked why [] e (ground (arith, at))) (λ e' k. tt) in
        either Returned (ltb 0 t.unproven_again) _ _ (λ p. stops unproven_again)
          (λ p.
            either Returned (ltb 0 t.by_environment) _ _ (λ q. stops by_environment)
              (λ q.
                either Returned (not (is_nil follow_ups) || ltb 0 t.replans) _ _
                  (λ r.
                    gives_then (λ (s : Engine × Bool). reached e.job.state s.0.job.state ≡ true)
                      (λ s. Unit) (request_replan env input.now (env.say replanning) false noted)
                      (λ s. check_graph env input s.0)
                      (replan_moves env input.now (env.say replanning) false noted answers
                        (ground (arith, at)))
                      (λ s k. check_graph-Returned s.0 (ground (arith, k, at))))
                  (λ r. check_graph-Returned e (ground (arith, at)))))

    wait_for_one-Returned :
        (e : Engine) → e.job.state ≡ executing → Returned (wait_for_one env input e)
    unfolding wait_for_one
    wait_for_one-Returned e at =
        let w = input.wait e in
        let e' : Engine = record e {
          slots = w.slots;
          services = w.services;
          graph = w.graph;
          active = w.still_active;
        } in
        gives_then (λ (s : Engine × Tally). s.0.job ≡ e.job) (λ s. Unit)
          (take_all env input.now w.ended (e', nothing)) (after_batch env input)
          (all_same w.ended (e', nothing) (fine e))
          (λ s same. after_batch-Returned s (ap (λ (j : JobRecord). j.state) same ∙ at))

    pub after_round-Returned :
        (e : Engine) → e.job.state ≡ executing → Returned (after_round env input e)
    unfolding after_round open_to legal transition_job
    after_round-Returned e at =
        let looked = waits env input (find_ready_tasks e.graph) e.slots e.services in
        let e' : Engine = record e { services = looked.0 } in
        either Returned (not (is_nil e.active)) _ _ (λ p. wait_for_one-Returned e at)
          (λ p.
            either Returned looked.1 _ _
              (λ q.
                moves_then env input.now waiting_for_capacity waits_for_capacity [] e' true
                  (λ x. Unit) (ground (arith, at)) tt)
              (λ q. check_graph-Returned e' (ground (arith, at))))
