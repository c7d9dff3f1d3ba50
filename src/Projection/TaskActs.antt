-- ===== src/Projection/TaskActs.antt =====
-- runtime/storage/projector.py against the running engine: the acts on one task.
use mathlib.Core.Path.{subst}
use hermes_lab.Prelude.{
  ℕ, ◌≡◌, sym, ap, ◌∙◌, inl, inr, String, Option, none, some, List, true, false, is_some,
  Bool-cases, Option-cases, elem, or_unchanged, arith,
}
use hermes_lab.Dict.{Dict, lookup, modify, insert}
use hermes_lab.Task.{Value, TaskNode, cancelled}
use hermes_lab.TaskGraph.{
  TaskGraph, add_task, update_task, update_task_found, start, finish, give_up, end_cancelled,
  mark_running, mark_success, mark_failure, mark_cancelled, supersede_task, adopt,
}
use hermes_lab.Scheduler.{hand_over}
use hermes_lab.Projection.Payload.{Payload, Python}
use hermes_lab.Projection.Kinds.{kind_of}
use hermes_lab.Projection.Bridge.{
  Writing, emit_task_created, emit_task_ready, emit_task_assigned, emit_task_started,
  emit_task_completed, emit_task_failed, emit_task_superseded, emit_task_cancelled,
  emit_task_rerouted, event_of, cancellation,
}
use hermes_lab.Projection.Defs.{Fold, apply_kind, replay}
use hermes_lab.Projection.Tasks.{outlives, on_task_created}
use hermes_lab.Projection.Alike.{Alike}
use hermes_lab.Projection.TaskAdded.{IsNew, create-Alike}
use hermes_lab.Projection.TaskSteps.{dispatch-Alike, succeed-Alike, fail-Alike}
use hermes_lab.Projection.TaskEnds.{supersede-Alike, cancel-Alike, reroute-Alike, again-Alike}
use hermes_lab.Projection.Live.{
  Live, create, dispatch, succeed, fail, reroute, supersede, cancel, perform, after_add, cancel_one,
  is_cancellable,
}
use hermes_lab.Projection.Sound.{SameState, IsSound}

cancellable_dies : (t : TaskNode) → is_cancellable t.status ≡ true → outlives t.status ≡ false
cancellable_dies t h = ground arith

found_at :
    (k : String) (t : TaskNode) (d : Dict TaskNode)
    → lookup k d ≡ some t
    → t.task_id ≡ k
    → lookup t.task_id d ≡ some t
found_at k t d found at = ap (λ j. lookup j d) at ∙ found

adopt-IsNew : (job : String) (t : TaskNode) → IsNew t → IsNew (adopt job t)
unfolding adopt
adopt-IsNew job t n = ground arith

create_adopted :
    (py : Python) (id : String) (w : Writing) (reason : Option String) (job : String) (t : TaskNode)
    (d : Dict TaskNode) (g : TaskGraph)
    → lookup t.task_id d ≡ none
    → IsNew t
    → Alike d g.tasks
    → Alike
        (insert t.task_id (adopt job t) d)
        (on_task_created py id (emit_task_created w (adopt job t) reason) g).tasks
unfolding emit_task_created
create_adopted py id w reason job t d g new n a =
    let same : (adopt job t).task_id ≡ t.task_id = unfold adopt in ground arith in
    subst
      (λ k.
        Alike (insert k (adopt job t) d)
          (on_task_created py id (emit_task_created w (adopt job t) reason) g).tasks)
      same (create-Alike py id w reason (adopt job t) d g (rw same new) (adopt-IsNew job t n) a)

module _ (py : Python) (id : String) (w v : Writing) (s : Live) (f : Fold)
    (same : SameState s f) where
  -- A write to the task in hand, and the replay of what was written of it.
  marked :
      (k : String) (h : TaskNode → TaskNode) (t : TaskNode) (g : TaskGraph)
      → lookup k s.graph.tasks ≡ some t
      → Alike (modify k h s.graph.tasks) g.tasks
      → SameState
          (record s { graph = or_unchanged s.graph (update_task k h s.graph) })
          (record f { graph = g })
  marked k h t g found a = record {
    jobs = same.jobs;
    tasks = rw (update_task_found k h s.graph t found) a;
  }

  pub dispatch-SameState :
      (now : ℕ) (k actor : String) (decision : Value)
      → IsSound (dispatch now k actor decision) s
      → SameState
          (perform py w v (dispatch now k actor decision) s).0
          (replay py id (perform py w v (dispatch now k actor decision) s).1 f)
  unfolding perform replay apply_kind kind_of lookup emit_task_assigned emit_task_started event_of
      mark_running
  dispatch-SameState now k actor decision (named, held) =
      elim (Option-cases (lookup k s.graph.tasks)) [
        | inl e ↦ rw e same
        | inr (t, e) ↦
            let found = found_at k t s.graph.tasks e (held t e).0 in
            rw e (
              marked t.task_id (start now (some actor)) t _ found (
                dispatch-Alike py w v now actor decision t s.graph.tasks f.graph found named
                  same.tasks))
      ]

  pub succeed-SameState :
      (now : ℕ) (k actor : String) (artifacts : List Value) (metadata : Payload)
      → IsSound (succeed now k actor artifacts metadata) s
      → SameState
          (perform py w v (succeed now k actor artifacts metadata) s).0
          (replay py id (perform py w v (succeed now k actor artifacts metadata) s).1 f)
  unfolding perform replay apply_kind kind_of lookup emit_task_completed event_of mark_success
  succeed-SameState now k actor artifacts metadata (named, held) =
      elim (Option-cases (lookup k s.graph.tasks)) [
        | inl e ↦ rw e same
        | inr (t, e) ↦
            let found = found_at k t s.graph.tasks e (held t e).0 in
            rw e (
              marked t.task_id (finish now artifacts metadata) t _ found (
                succeed-Alike py w now actor artifacts metadata t s.graph.tasks f.graph found named
                  (held t e).1 same.tasks))
      ]

  pub fail-SameState :
      (now : ℕ) (k actor : String) (error : Option Value)
      → IsSound (fail now k actor error) s
      → SameState
          (perform py w v (fail now k actor error) s).0
          (replay py id (perform py w v (fail now k actor error) s).1 f)
  unfolding perform replay apply_kind kind_of lookup emit_task_failed event_of mark_failure
  fail-SameState now k actor error held = elim (Option-cases (lookup k s.graph.tasks)) [
    | inl e ↦ rw e same
    | inr (t, e) ↦
        let found = found_at k t s.graph.tasks e (held t e).0 in
        rw e (
          marked t.task_id (give_up now error true) t _ found
            (fail-Alike py w now actor error t s.graph.tasks f.graph found same.tasks))
  ]

  pub reroute-SameState :
      (k to reason : String)
      → IsSound (reroute k to reason) s
      → SameState
          (perform py w v (reroute k to reason) s).0
          (replay py id (perform py w v (reroute k to reason) s).1 f)
  unfolding perform replay apply_kind kind_of lookup emit_task_rerouted emit_task_ready event_of
  reroute-SameState k to reason (named, held) = elim (Option-cases (lookup k s.graph.tasks)) [
    | inl e ↦ rw e same
    | inr (t, e) ↦
        let found = found_at k t s.graph.tasks e (held t e).0 in
        rw e (
          marked t.task_id (hand_over to) t _ found (
            reroute-Alike w v t.job_id t.assigned_actor to reason t s.graph.tasks f.graph found
              named (held t e).1 same.tasks))
  ]

  pub supersede-SameState :
      (now : ℕ) (k : String) (by reason : Option String)
      → SameState
          (perform py w v (supersede now k by reason) s).0
          (replay py id (perform py w v (supersede now k by reason) s).1 f)
  unfolding perform replay apply_kind kind_of lookup emit_task_superseded event_of supersede_task
  supersede-SameState now k by reason = elim (Option-cases (lookup k s.graph.tasks)) [
    | inl e ↦ rw e same
    | inr (t, e) ↦ rw e (record {
      jobs = same.jobs;
      tasks =
          supersede-Alike py w now k s.job.job_id by reason t s.graph.tasks f.graph e same.tasks;
    })
  ]

  -- The event of a cancellation is written the first time only.
  cancelled_here :
      (now : ℕ) (reason : Option String) (t : TaskNode)
      → lookup t.task_id s.graph.tasks ≡ some t
      → (elem t.task_id s.announced ≡ true
          → (t.status ≡ cancelled) × (is_some t.completed_at ≡ true))
      → is_cancellable t.status ≡ true
      → SameState
          (cancel_one py w v now reason t s).0
          (replay py id (cancel_one py w v now reason t s).1 f)
  unfolding cancel_one replay apply_kind kind_of lookup emit_task_cancelled cancellation event_of
      mark_cancelled
  cancelled_here now reason t found still open_ = elim (Bool-cases (elem t.task_id s.announced)) [
    | inl again ↦
        rw (again, open_)
          (record {
            jobs = same.jobs;
            tasks = rw (update_task_found t.task_id (end_cancelled now reason) s.graph t found) (
                again-Alike now t.task_id reason t s.graph.tasks f.graph.tasks found (still again).0
                  (still again).1 same.tasks);
          })
    | inr first ↦
        rw (first, open_)
          (record {
            jobs = same.jobs;
            tasks = rw (update_task_found t.task_id (end_cancelled now reason) s.graph t found) (
                cancel-Alike py w now t.task_id t.job_id reason t.attempt t.assigned_actor t
                  s.graph.tasks f.graph found (cancellable_dies t open_) same.tasks);
          })
  ]

  pub cancel-SameState :
      (now : ℕ) (k : String) (reason : Option String)
      → IsSound (cancel now k reason) s
      → SameState
          (perform py w v (cancel now k reason) s).0
          (replay py id (perform py w v (cancel now k reason) s).1 f)
  unfolding perform replay
  cancel-SameState now k reason held = elim (Option-cases (lookup k s.graph.tasks)) [
    | inl e ↦ rw e same
    | inr (t, e) ↦
        let (at, still) = held t e in
        rw e (elim (Bool-cases (is_cancellable t.status)) [
          | inl may ↦
              cancelled_here now reason t (found_at k t s.graph.tasks e at)
                (λ again. still (rw (sym at) again)) may
          | inr over ↦ unfold cancel_one in rw over same
        ])
  ]

  pub create-SameState :
      (t : TaskNode) (reason : Option String)
      → IsNew t
      → SameState
          (perform py w v (create t reason) s).0
          (replay py id (perform py w v (create t reason) s).1 f)
  unfolding perform after_add add_task replay apply_kind kind_of lookup emit_task_created event_of
      adopt
  create-SameState t reason new = elim (Option-cases (lookup t.task_id s.graph.tasks)) [
    | inl e ↦ rw e (record {
      jobs = same.jobs;
      tasks = create_adopted py id w reason s.graph.job_id t s.graph.tasks f.graph e new same.tasks;
    })
    | inr (old, e) ↦ rw e same
  ]
