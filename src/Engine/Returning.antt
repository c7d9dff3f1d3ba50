-- ===== src/Engine/Returning.antt =====
-- runtime/engine.py: a step from a well-formed state raises nothing.
use hermes_lab.Prelude.{◌>>=◌}
use hermes_lab.Prelude.{
  ◌≡◌, refl, ap, ◌∙◌, String, Option, none, some, List, [], ◌++◌, map, Bool, true, false, ◌||◌,
  if◌then◌else◌, leb, eqb, is_some, Result, ok, err, Gives, gives_then, gives_any, either, arith,
}
use hermes_lab.Dict.{Dict}
use hermes_lab.Task.{TaskNode}
use hermes_lab.TaskGraph.{TaskGraph}
use hermes_lab.TaskGraph.Wellformed.{IsGraph}
use hermes_lab.TaskGraph.Queries.{find_ready_tasks, is_all_completed, count}
use hermes_lab.JobState
use hermes_lab.JobState.{
  State, created, planning, executing, waiting_for_capacity, verifying, repairing, completed,
  blocked, failed, cancelled, JobRecord, legal, is_terminal_state,
}
use hermes_lab.Scheduler.Ledger.{IsLedger}
use hermes_lab.Scheduler.Rounds.{Launch, Round, schedule_ready_tasks}
use hermes_lab.Scheduler.Launches.{Scheduled, schedule_ready_tasks-Scheduled}
use hermes_lab.Engine.Defs.{
  PlanAnswer, Why, Env, Engine, is_terminal, initialize_and_plan, transition_job, request_replan,
  planned, add_initial, passed, all_done, first_plan, plan_made, nothing_planned, capacity_back,
  repairing_again, repairs_planned, irreparable, verifier_environment, repairs_used,
}
use hermes_lab.Engine.Steps.{
  Input, Wait, Verification, passes, fails, repairable, is_nil, cancel_active, stop, go_on,
  while_open, to_state, can_run, step_waiting, waits, replan_or_block, check_graph, first_time,
  after_batch, wait_for_one, after_round, round_of, step_executing,
}
use hermes_lab.Engine.Steps
use hermes_lab.Engine.Loop.{
  add_recommended, plan_repair, add_default, resume_repair, repair_cycle, step_verifying, step_in,
  step,
}
use hermes_lab.Engine.Moves.{Answers, moves, moves_then, replan_moves, open_to, reached}
use hermes_lab.Engine.Raises.{AllFine, Returned, after_round-Returned}

module _ (env : Env) (input : Input) (answers : Answers env.planner) where
  planned-Returned :
      (planner : Option (JobRecord → TaskGraph → Result PlanAnswer))
      → Answers planner
      → (e : Engine) → Returned (planned env input.now planner e)
  unfolding planned
  planned-Returned none answers e = tt
  planned-Returned (some plan) answers e =
      gives_then (λ (a : PlanAnswer). Unit) (λ (g : TaskGraph). Unit) (plan e.job e.graph) _
        (answers e.job e.graph) (λ a k. tt)

  created-Returned :
      (e : Engine)
      → e.job.state ≡ created
      → Returned (initialize_and_plan env input.now [] e >>= while_open)
  unfolding initialize_and_plan while_open open_to legal
  created-Returned e at =
      gives_then (λ (e' : Engine). Unit) (λ s. Unit) (initialize_and_plan env input.now [] e)
        while_open
        (gives_then (λ (e1 : Engine). e1.job.state ≡ planning) (λ (e' : Engine). Unit)
          (transition_job env input.now planning first_plan [] e) _
          (moves env input.now planning first_plan [] e (ground (arith, at)))
          (λ e1 there.
            let filled : Engine = record e1 { graph = add_initial env.limits [] e1.graph } in
            gives_then (λ (g : TaskGraph). Unit) (λ (e' : Engine). Unit)
              (planned env input.now env.planner filled) _
              (planned-Returned env.planner answers filled)
              (λ g k.
                let e2 : Engine = record filled { graph = g } in
                let goes : (target : State) (why : Why)
                    → open_to target e1.job.state ≡ true
                    → Returned (transition_job env input.now target why [] e2) =
                  λ target why h.
                    gives_any (λ (e' : Engine). e'.job.state ≡ target)
                      (transition_job env input.now target why [] e2)
                      (moves env input.now target why [] e2 h) in
                either Returned (eqb (count e2.graph) 0) _ _
                  (λ p. goes blocked nothing_planned (ground (arith, there)))
                  (λ p. goes executing plan_made (ground (arith, there))))))
        (λ e' k. tt)

  step_waiting-Returned :
      (e : Engine) → e.job.state ≡ waiting_for_capacity → Returned (step_waiting env input e)
  unfolding step_waiting open_to legal transition_job
  step_waiting-Returned e at =
      let looked = can_run env input (find_ready_tasks e.graph) e.slots e.services in
      let e' : Engine = record e { services = looked.0 } in
      either Returned looked.1 _ _
        (λ p.
          moves_then env input.now executing capacity_back [] e' true (λ x. Unit)
            (ground (arith, at)) tt)
        (λ p. tt)

  resume_repair-Returned :
      (s : Engine × Bool)
      → reached repairing s.0.job.state ≡ true
      → Returned (resume_repair env input s)
  unfolding resume_repair add_default is_terminal JobState.is_terminal is_terminal_state open_to
      legal transition_job
  resume_repair-Returned (e, found) h =
      let ready : Engine = if found then e else add_default env input e in
      either Returned (is_terminal e) _ _ (λ p. tt)
        (λ p.
          moves_then env input.now executing repairs_planned [] ready true (λ x. Unit)
            (either (λ (x : Engine). open_to executing x.job.state ≡ true) found e _
              (λ q. ground (arith, p, h)) (λ q. ground (arith, p, h)))
            tt)

  plan_repair-Reached :
      (s : Engine × Bool)
      → s.0.job.state ≡ repairing
      → Gives
          (λ (r : Engine × Bool). reached repairing r.0.job.state ≡ true)
          (plan_repair env input s)
  unfolding plan_repair
  plan_repair-Reached (e, found) at =
      either (Gives (λ (r : Engine × Bool). reached repairing r.0.job.state ≡ true))
        (is_some env.planner) _ _
        (λ p.
          gives_then (λ (r : Engine × Bool). reached e.job.state r.0.job.state ≡ true)
            (λ (r : Engine × Bool). reached repairing r.0.job.state ≡ true)
            (request_replan env input.now (env.say repairs_planned) true e) (λ r. ok (r.0, true))
            (replan_moves env input.now (env.say repairs_planned) true e answers
              (ground (arith, at)))
            (λ r k. ground (arith, at, k)))
        (λ p. ground (arith, at))

  repair_cycle-Returned :
      (recommended : List TaskNode) (e : Engine)
      → e.job.state ≡ verifying
      → Returned (repair_cycle env input recommended e)
  unfolding repair_cycle plan_repair open_to legal transition_job
  repair_cycle-Returned recommended e at =
      either Returned (leb env.limits.max_repairs_per_job e.job.repair_count) _ _
        (λ p.
          moves_then env input.now blocked repairs_used [] e false (λ x. Unit) (ground (arith, at))
            tt)
        (λ p.
          gives_then (λ (e1 : Engine). e1.job.state ≡ repairing) (λ s. Unit)
            (transition_job env input.now repairing repairing_again [] e) _
            (moves env input.now repairing repairing_again [] e (ground (arith, at)))
            (λ e1 there.
              let grown = add_recommended env input recommended e1.graph in
              let e2 : Engine = record e1 { graph = grown.0 } in
              gives_then (λ (s : Engine × Bool). reached repairing s.0.job.state ≡ true) (λ s. Unit)
                (plan_repair env input (e2, grown.1)) (resume_repair env input)
                (plan_repair-Reached (e2, grown.1) there) resume_repair-Returned))

  step_verifying-Returned :
      (v : Verification) (e : Engine)
      → e.job.state ≡ verifying
      → Returned (step_verifying env input v e)
  unfolding step_verifying open_to legal transition_job
  step_verifying-Returned passes e at =
      moves_then env input.now completed passed [] e false (λ x. Unit) (ground (arith, at)) tt
  step_verifying-Returned Steps.by_environment e at =
      moves_then env input.now blocked verifier_environment [] e false (λ x. Unit)
        (ground (arith, at)) tt
  step_verifying-Returned (repairable recommended) e at = repair_cycle-Returned recommended e at
  step_verifying-Returned fails e at =
      moves_then env input.now failed irreparable [] e false (λ x. Unit) (ground (arith, at)) tt

  Scheduled-Returned :
      (flight : Dict String) (tasks : Dict TaskNode) (r : Result Round)
      → Scheduled env.setting input.now flight tasks r
      → Returned r
  unfolding Scheduled
  Scheduled-Returned flight tasks (ok r) h = tt
  Scheduled-Returned flight tasks (err x) h = h

  -- What a step relies on, besides a planner that raises nothing: the planner does not leave failed
  -- verdicts to the engine, the graph is well-formed, the slots are those of the executions in
  -- flight, no execution raises or ends without metadata, and the verifier raises nothing.
  pub record IsReady (flight : Dict String) (e : Engine) : Type 0 where
    pub own : env.repairs_verdicts ≡ false
    pub graph : IsGraph e.graph
    pub ledger : IsLedger env.setting.limit (record { slots = e.slots; flight = flight })
    pub executions : (e' : Engine) → AllFine (input.wait e').ended
    pub verifier : Returned (input.verify e)

  step_executing-Returned :
      (flight : Dict String) (e : Engine)
      → IsReady flight e
      → e.job.state ≡ executing
      → Returned (step_executing env input e)
  unfolding step_executing round_of open_to legal transition_job
  step_executing-Returned flight e h at =
      let r : Round = record {
        slots = e.slots;
        services = e.services;
        graph = e.graph;
        launched = [];
      } in
      either Returned (is_all_completed e.graph) _ _
        (λ p.
          moves_then env input.now verifying all_done [] e true (λ x. Unit) (ground (arith, at)) tt)
        (λ p.
          gives_then (λ (e' : Engine). e'.job ≡ e.job) (λ s. Unit) (round_of env input e)
            (after_round env input)
            (gives_then (λ (r' : Round). Unit) (λ (e' : Engine). e'.job ≡ e.job)
              (schedule_ready_tasks env.setting input.now r)
              (λ r'. ok (record e {
                slots = r'.slots;
                services = r'.services;
                graph = r'.graph;
                active = e.active ++ map (λ (l : Launch). l.task.task_id) r'.launched;
              }))
              (Scheduled-Returned flight e.graph.tasks
                (schedule_ready_tasks env.setting input.now r)
                (schedule_ready_tasks-Scheduled env.setting input.now flight r h.graph h.ledger))
              (λ r' k. refl))
            (λ e' same.
              after_round-Returned env input answers h.own h.executions e'
                (ap (λ (j : JobRecord). j.state) same ∙ at)))

  step_in-Returned :
      (flight : Dict String) (s : State) (e : Engine)
      → IsReady flight e
      → e.job.state ≡ s
      → Returned (step_in env input s e)
  unfolding step_in
  step_in-Returned flight created e h at = created-Returned e at
  step_in-Returned flight waiting_for_capacity e h at = step_waiting-Returned e at
  step_in-Returned flight executing e h at = step_executing-Returned flight e h at
  step_in-Returned flight verifying e h at =
      gives_then (λ (v : Verification). Unit) (λ s. Unit) (input.verify e)
        (λ v. step_verifying env input v e) h.verifier (λ v k. step_verifying-Returned v e at)
  step_in-Returned flight planning e h at = tt
  step_in-Returned flight repairing e h at = tt
  step_in-Returned flight completed e h at = tt
  step_in-Returned flight blocked e h at = tt
  step_in-Returned flight failed e h at = tt
  step_in-Returned flight cancelled e h at = tt

  -- In whatever state the job is, a step raises nothing of its own: no transition that it asks for is
  -- refused, and no task that it names is missing. The planner, the executions and the verifier are
  -- taken to raise nothing, executions to end with metadata, the planner not to leave failed verdicts
  -- to the engine, the graph to be well-formed, and the slots to be those of the executions in flight.
  pub step-Returned :
      (flight : Dict String) (e : Engine) → IsReady flight e → Returned (step env input e)
  unfolding step
  step-Returned flight e h =
      either Returned (is_terminal e || e.fenced) _ _ (λ p. tt)
        (λ p. step_in-Returned flight e.job.state e h refl)
