-- ===== src/Projection/TaskEnds.antt =====
-- Each event of a task, replayed, does to a graph what the live operation did: how a task comes, moves and is dropped.
use hermes_lab.Prelude.{ℕ, ◌≡◌, String, Option, some, true, false, ◌==◌, is_some, arith, eq_iff}
use hermes_lab.Dict.{Dict, lookup, modify}
use hermes_lab.Dict.Laws.{modify-id}
use hermes_lab.Task.{TaskNode, cancelled}
use hermes_lab.TaskGraph.{TaskGraph, end_cancelled, replace, keeps_status}
use hermes_lab.Projection.Payload.{Payload, Python, get, get_text}
use hermes_lab.Projection.Tasks.{
  reroute_task, make_ready, replace_task, outlives, on_task_rerouted, on_task_ready,
  on_task_superseded, on_task_cancelled, cancel_task,
}
use hermes_lab.Scheduler.{hand_over}
use hermes_lab.Projection.Bridge.{
  Writing, event_of, emit_task_ready, emit_task_rerouted, emit_task_superseded, cancellation,
}
use hermes_lab.Projection.Alike.{SameTask, Alike, Alike-modify}
use hermes_lab.Projection.TaskSteps.{id_back, any_id_back, on_task-Alike, on_two-Alike}

module _ (py : Python) where
  replaced-SameTask :
      (w : Writing) (now : ℕ) (id job : String) (by reason : Option String) (t p : TaskNode)
      → SameTask t p
      → SameTask
          (replace now by reason t)
          (replace_task py (emit_task_superseded w id job by reason) p)
  unfolding replace_task emit_task_superseded event_of get_text get lookup replace
  replaced-SameTask w now id job by reason t p s = ground arith

  pub supersede-Alike :
      (w : Writing) (now : ℕ) (id job : String) (by reason : Option String) (t : TaskNode)
      (d : Dict TaskNode) (g : TaskGraph)
      → lookup id d ≡ some t
      → Alike d g.tasks
      → Alike
          (modify id (replace now by reason) d)
          (on_task_superseded py (emit_task_superseded w id job by reason) g).tasks
  unfolding on_task_superseded
  supersede-Alike w now id job by reason t d g found =
      on_task-Alike id _ (replace now by reason)
        (replace_task py (emit_task_superseded w id job by reason)) t d g
        (unfold emit_task_superseded event_of get_text get lookup in id_back id) found
        (λ p. replaced-SameTask w now id job by reason t p)

  cancelled-SameTask :
      (w : Writing) (now : ℕ) (id job : String) (reason : Option String) (attempt : ℕ)
      (actor : Option String) (t p : TaskNode)
      → outlives t.status ≡ false
      → SameTask t p
      → SameTask
          (end_cancelled now reason t)
          (cancel_task py (cancellation w id job reason attempt actor) p)
  unfolding cancel_task cancellation event_of get_text get lookup end_cancelled
  cancelled-SameTask w now id job reason attempt actor t p ends s = ground arith

  pub cancel-Alike :
      (w : Writing) (now : ℕ) (id job : String) (reason : Option String) (attempt : ℕ)
      (actor : Option String) (t : TaskNode) (d : Dict TaskNode) (g : TaskGraph)
      → lookup id d ≡ some t
      → outlives t.status ≡ false
      → Alike d g.tasks
      → Alike
          (modify id (end_cancelled now reason) d)
          (on_task_cancelled py (cancellation w id job reason attempt actor) g).tasks
  unfolding on_task_cancelled
  cancel-Alike w now id job reason attempt actor t d g found ends =
      on_task-Alike id _ (end_cancelled now reason)
        (cancel_task py (cancellation w id job reason attempt actor)) t d g
        (unfold cancellation event_of get_text get lookup in any_id_back id) found
        (λ p. cancelled-SameTask w now id job reason attempt actor t p ends)

rerouted-SameTask :
    (m : Payload) (to : String) (t p : TaskNode)
    → keeps_status t.status ≡ false
    → (to == "") ≡ false
    → SameTask t p
    → SameTask (hand_over to t) (make_ready (reroute_task (some to) m p))
unfolding reroute_task keeps_status
rerouted-SameTask m to t p moves named s = ground (arith, eq_iff to "")

pub reroute-Alike :
    (w v : Writing) (job : String) (from : Option String) (to reason : String) (t : TaskNode)
    (d : Dict TaskNode) (g : TaskGraph)
    → lookup t.task_id d ≡ some t
    → (to == "") ≡ false
    → keeps_status t.status ≡ false
    → Alike d g.tasks
    → Alike
        (modify t.task_id (hand_over to) d)
        (on_task_ready
          (emit_task_ready v (hand_over to t))
          (on_task_rerouted (emit_task_rerouted w t.task_id job from to reason) g)).tasks
unfolding on_task_ready on_task_rerouted emit_task_ready emit_task_rerouted event_of get_text get
    lookup
reroute-Alike w v job from to reason t d g found named moves = rw named (
    on_two-Alike t.task_id _ _ (hand_over to) make_ready
      (reroute_task (some to) (emit_task_rerouted w t.task_id job from to reason).payload) t d g
      (id_back t.task_id) (any_id_back t.task_id) found
      (λ p.
        rerouted-SameTask (emit_task_rerouted w t.task_id job from to reason).payload to t p moves
          named))

again-SameTask :
    (now : ℕ) (reason : Option String) (t p : TaskNode)
    → t.status ≡ cancelled
    → is_some t.completed_at ≡ true
    → SameTask t p
    → SameTask (end_cancelled now reason t) p
unfolding end_cancelled
again-SameTask now reason t p ends stamped s = ground arith

-- A second cancellation of a task writes no event, and changes nothing that the runtime decides by.
pub again-Alike :
    (now : ℕ) (id : String) (reason : Option String) (t : TaskNode) (d e : Dict TaskNode)
    → lookup id d ≡ some t
    → t.status ≡ cancelled
    → is_some t.completed_at ≡ true
    → Alike d e
    → Alike (modify id (end_cancelled now reason) d) e
again-Alike now id reason t d e found ends stamped a =
    let moved =
      Alike-modify id (end_cancelled now reason) (λ p. p) t d e found
        (λ p. again-SameTask now reason t p ends stamped) a in
    rw (modify-id id e) at moved
