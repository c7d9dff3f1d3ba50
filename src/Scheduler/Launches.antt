-- ===== src/Scheduler/Launches.antt =====
-- runtime/scheduler.py: what a round of `schedule_ready_tasks` starts.
use mathlib.Core.Path.{subst}
use hermes_lab.Prelude.{◌>>=◌}
use hermes_lab.Prelude.{
  ℕ, ◌≡◌, refl, sym, ap, ◌∙◌, inl, inr, String, Option, none, some, List, [], ◌∷◌, ◌++◌, Bool, true,
  false, ◌&&◌, String-cases, all, keep, elem, Result, ok, err, arith, eq_refl, either,
}
use hermes_lab.Dict.{Dict, lookup, has, modify, values}
use hermes_lab.Dict.Laws.{lookup-modify}
use hermes_lab.Task.{TaskNode}
use hermes_lab.TaskGraph.{TaskGraph, mark_running, mark_blocked, update_task, start}
use hermes_lab.TaskGraph.Queries.{find_ready_tasks, is_runnable}
use hermes_lab.Scheduler.Slots.{acquire_actor, add_running, can_dispatch_more, begin}
use hermes_lab.Scheduler.Ledger.{Running, IsLedger, step, launch-IsLedger}
use hermes_lab.Scheduler.Reasons.{Reason, is_no_capable, Setting}
use hermes_lab.Scheduler.Candidates.{capable, capable_choice}
use hermes_lab.TaskGraph.Wellformed.{IsGraph}
use hermes_lab.Dict.Laws.{Unique}
use hermes_lab.Scheduler.Deciding.{target-capable, decide-capable}
use hermes_lab.Scheduler.Rounds.{
  Launch, Round, target, decide, place, schedule_task, schedule_loop, schedule_ready_tasks,
}

-- The executions in flight after some launches.
unfoldable pub in_flight : List Launch → Dict String → Dict String
in_flight [] flight = flight
in_flight (l ∷ ls) flight = in_flight ls ((l.task.task_id, l.actor) ∷ flight)

in_flight-append :
    (ls : List Launch) (l : Launch) (flight : Dict String)
    → in_flight (ls ++ l ∷ []) flight ≡ (l.task.task_id, l.actor) ∷ in_flight ls flight
unfolding in_flight
in_flight-append [] l flight = refl
in_flight-append (m ∷ ls) l flight = in_flight-append ls l ((m.task.task_id, m.actor) ∷ flight)

-- The values of a dict in which every value stands under its own id are found there.
values_known :
    (whole d : Dict TaskNode) (p : TaskNode → Bool)
    → Unique d
    → ((k : String) (n : TaskNode) → lookup k d ≡ some n → has n.task_id whole ≡ true)
    → all (λ t. has t.task_id whole) (keep p (values d)) ≡ true
unfolding all keep lookup
values_known whole [] p u h = refl
values_known whole ((j, v) ∷ d) p (fresh, u) h =
    let later : all (λ t. has t.task_id whole) (keep p (values d)) ≡ true =
      values_known whole d p u (λ k n e. h k n (elim (String-cases j k) [
        | inl (_, same) ↦ ground (arith, ap (λ x. has x d) same, e, fresh)
        | inr (off, _) ↦ ground (arith, off, e)
      ])) in
    ground (arith, later, h j v, eq_refl j)

module _ (set : Setting) (now : ℕ) where
  unfoldable pub all_capable : List Launch → Bool
  unfolding all capable
  all_capable = all (λ l. capable set l.task l.actor)

  all_capable-append :
      (ls : List Launch) (l : Launch)
      → all_capable (ls ++ l ∷ []) ≡ (all_capable ls && capable set l.task l.actor)
  unfolding all_capable all
  all_capable-append [] l = ground arith
  all_capable-append (m ∷ ls) l = ground (arith, all_capable-append ls l)

  -- Every launch went to an actor that can do the task, and the slots are those of the executions
  -- in flight.
  pub record IsRound (flight : Dict String) (r : Round) : Type 0 where
    pub fit : all_capable r.launched ≡ true
    pub ledger :
        IsLedger set.limit (record { slots = r.slots; flight = in_flight r.launched flight })

  -- A result that is a round of which this holds, with the same tasks in the graph.
  unfoldable pub Scheduled : Dict String → Dict TaskNode → Result Round → Type 0
  unfolding lookup
  Scheduled flight tasks (ok r) =
      IsRound flight r × ((id : String) → has id r.graph.tasks ≡ has id tasks)
  Scheduled flight tasks (err e) = ⊥

  update-has :
      (id j : String) (f : TaskNode → TaskNode) (g : TaskGraph)
      → has j (modify id f g.tasks) ≡ has j g.tasks
  update-has id j f g = ground (arith, lookup-modify id j f g.tasks)

  run-Ledger :
      (flight : Dict String) (id actor : String) (r : Round)
      → can_dispatch_more set.limit r.slots ≡ true
      → elem id r.slots.running_tasks ≡ false
      → IsLedger set.limit (record { slots = r.slots; flight = flight })
      → IsLedger set.limit (record {
        slots =
            acquire_actor actor
              (record r.slots { running_tasks = add_running id r.slots.running_tasks });
        flight = (id, actor) ∷ flight;
      })
  unfolding acquire_actor add_running can_dispatch_more begin step
  run-Ledger flight id actor r room fresh h =
      let now_running : Running = record { slots = r.slots; flight = flight } in
      subst (IsLedger set.limit) (ground (arith, room, fresh))
        (launch-IsLedger set.limit id actor now_running h)

  updated-Scheduled :
      (flight : Dict String) (id : String) (f : TaskNode → TaskNode) (g : TaskGraph)
      (k : TaskGraph → Round)
      → has id g.tasks ≡ true
      → ((g' : TaskGraph) → IsRound flight (k g') × ((k g').graph ≡ g'))
      → Scheduled flight g.tasks (update_task id f g >>= λ g'. ok (k g'))
  unfolding update_task Scheduled
  updated-Scheduled flight id f g k known h =
      let g' : TaskGraph = record g { tasks = modify id f g.tasks } in
      let done : update_task id f g ≡ ok g' = ground (arith, known) in
      subst (λ u. Scheduled flight g.tasks (u >>= λ x. ok (k x))) (sym done)
        ((h g').0, λ j. ap (λ (x : TaskGraph). has j x.tasks) (h g').1 ∙ update-has id j f g)

  launched-IsRound :
      (flight : Dict String) (t : TaskNode) (actor : String) (r : Round) (g : TaskGraph)
      → capable set t actor ≡ true
      → can_dispatch_more set.limit r.slots ≡ true
      → elem t.task_id r.slots.running_tasks ≡ false
      → IsRound flight r
      → IsRound flight (record r {
        graph = g;
        slots =
            acquire_actor actor
              (record r.slots { running_tasks = add_running t.task_id r.slots.running_tasks });
        launched = r.launched ++ record { task = t; actor = actor } ∷ [];
      })
  launched-IsRound flight t actor r g fit room fresh h = record {
    fit =
        ground
          (arith, all_capable-append r.launched (record { task = t; actor = actor }), fit, h.fit);
    ledger =
        subst
          (λ d. IsLedger set.limit (record {
            slots =
                acquire_actor actor
                  (record r.slots { running_tasks = add_running t.task_id r.slots.running_tasks });
            flight = d;
          }))
          (sym (in_flight-append r.launched (record { task = t; actor = actor }) flight))
          (run-Ledger (in_flight r.launched flight) t.task_id actor r room fresh h.ledger);
  }

  blocked-Scheduled :
      (flight : Dict String) (id : String) (r : Round)
      → has id r.graph.tasks ≡ true
      → IsRound flight r
      → Scheduled flight r.graph.tasks
          (mark_blocked id (some "no_capable_actor") r.graph >>= λ g. ok (record r { graph = g }))
  unfolding mark_blocked
  blocked-Scheduled flight id r known h =
      updated-Scheduled flight id _ r.graph (λ g. record r { graph = g }) known
        (λ g. (record { fit = h.fit; ledger = h.ledger }, refl))

  place-Scheduled :
      (flight : Dict String) (t : TaskNode) (why : Reason) (o : Option String) (r : Round)
      → has t.task_id r.graph.tasks ≡ true
      → capable_choice set t o ≡ true
      → can_dispatch_more set.limit r.slots ≡ true
      → elem t.task_id r.slots.running_tasks ≡ false
      → IsRound flight r
      → Scheduled flight r.graph.tasks (place set now t why o r)
  unfolding place mark_running Scheduled capable_choice
  place-Scheduled flight t why none r known fit room fresh h =
      either (Scheduled flight r.graph.tasks) (is_no_capable why) _ _
        (λ e. blocked-Scheduled flight t.task_id r known h) (λ e. (h, λ id. refl))
  place-Scheduled flight t why (some actor) r known fit room fresh h =
      updated-Scheduled flight t.task_id (start now (some actor)) r.graph
        (λ g. record r {
          graph = g;
          slots =
              acquire_actor actor
                (record r.slots { running_tasks = add_running t.task_id r.slots.running_tasks });
          launched = r.launched ++ record { task = t; actor = actor } ∷ [];
        })
        known (λ g. (launched-IsRound flight t actor r g fit room fresh h, refl))

  task-Scheduled :
      (flight : Dict String) (t : TaskNode) (r : Round)
      → has t.task_id r.graph.tasks ≡ true
      → can_dispatch_more set.limit r.slots ≡ true
      → IsRound flight r
      → Scheduled flight r.graph.tasks (schedule_task set now t r)
  unfolding schedule_task Scheduled
  task-Scheduled flight t r known room h =
      let decided = decide set now r t in
      either (Scheduled flight r.graph.tasks) (elem t.task_id r.slots.running_tasks) _ _
        (λ e. (h, λ id. refl))
        (λ e.
          place-Scheduled flight t decided.1.reason (target decided.1)
            (record r { services = decided.0 }) known
            (target-capable set now r.slots t decided.1 (decide-capable set now r t)) room e
            (record { fit = h.fit; ledger = h.ledger }))

  known_again :
      (g g' : Dict TaskNode) (ts : List TaskNode)
      → ((id : String) → has id g' ≡ has id g)
      → all (λ t. has t.task_id g) ts ≡ true
      → all (λ t. has t.task_id g') ts ≡ true
  unfolding all
  known_again g g' [] same h = refl
  known_again g g' (t ∷ ts) same h = ground (arith, same t.task_id, known_again g g' ts same)

  Rounds_same :
      (flight : Dict String) (tasks others : Dict TaskNode) (m : Result Round)
      → ((id : String) → has id tasks ≡ has id others)
      → Scheduled flight tasks m
      → Scheduled flight others m
  unfolding Scheduled
  Rounds_same flight tasks others (ok r) same h = (h.0, λ id. h.1 id ∙ same id)
  Rounds_same flight tasks others (err e) same h = h

  and_then-Scheduled :
      (flight : Dict String) (tasks : Dict TaskNode) (m : Result Round) (k : Round → Result Round)
      → Scheduled flight tasks m
      → ((r : Round)
          → IsRound flight r
          → ((id : String) → has id r.graph.tasks ≡ has id tasks)
          → Scheduled flight r.graph.tasks (k r))
      → Scheduled flight tasks (m >>= k)
  unfolding Scheduled
  and_then-Scheduled flight tasks (ok r) k h f =
      Rounds_same flight r.graph.tasks tasks (k r) h.1 (f r h.0 h.1)
  and_then-Scheduled flight tasks (err e) k h f = h

  loop-Scheduled :
      (flight : Dict String) (ts : List TaskNode) (r : Round)
      → all (λ t. has t.task_id r.graph.tasks) ts ≡ true
      → IsRound flight r
      → Scheduled flight r.graph.tasks (schedule_loop set now ts r)
  unfolding schedule_loop all Scheduled
  loop-Scheduled flight [] r known h = unfold Scheduled in (h, λ id. refl)
  loop-Scheduled flight (t ∷ ts) r known h =
      either (Scheduled flight r.graph.tasks) (can_dispatch_more set.limit r.slots) _ _
        (λ e.
          and_then-Scheduled flight r.graph.tasks (schedule_task set now t r)
            (schedule_loop set now ts) (task-Scheduled flight t r (ground (arith, known)) e h)
            (λ r' h' same.
              loop-Scheduled flight ts r'
                (known_again r.graph.tasks r'.graph.tasks ts same (ground (arith, known))) h'))
        (λ e. (h, λ id. refl))

  -- A round, from a well-formed graph and slots that are those of the executions in flight, raises
  -- nothing and keeps the tasks of the graph; the slots are still those of the executions in
  -- flight, those of the round included, and within the limit; and every task that it starts goes
  -- to an actor that has all it requires.
  pub schedule_ready_tasks-Scheduled :
      (flight : Dict String) (r : Round)
      → IsGraph r.graph
      → IsLedger set.limit (record { slots = r.slots; flight = flight })
      → Scheduled flight r.graph.tasks (schedule_ready_tasks set now r)
  unfolding schedule_ready_tasks find_ready_tasks in_flight all_capable all
  schedule_ready_tasks-Scheduled flight r g h =
      loop-Scheduled flight (find_ready_tasks r.graph) (record r { launched = [] })
        (values_known r.graph.tasks r.graph.tasks (is_runnable r.graph.tasks) g.unique
          (λ k n e. ground (arith, e, g.named k n e)))
        (record { fit = refl; ledger = h })
