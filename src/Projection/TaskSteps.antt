-- ===== src/Projection/TaskSteps.antt =====
-- Each event of a task, replayed, does to a graph what the live operation that wrote it did.
use hermes_lab.Prelude.{
  ℕ, ◌≡◌, String, Option, none, some, List, true, false, ◌==◌, if◌then◌else◌, truthy, arith, eq_iff,
}
use hermes_lab.Dict.{Dict, lookup, modify}
use hermes_lab.Dict.Laws.{modify-modify}
use hermes_lab.Task.{Value, TaskNode}
use hermes_lab.TaskGraph.{TaskGraph, start, finish, give_up}
use hermes_lab.Projection.Payload.{
  Payload, Event, Python, get, get_text, get_number, get_items, of_items, of_items-to_items, truth,
  or_else, or_default,
}
use hermes_lab.Projection.Tasks.{
  on_task, on_task_assigned, on_task_started, assign_task, start_task, complete_task, fail_task,
  on_task_completed, on_task_failed, actor_of,
}
use hermes_lab.Projection.Bridge.{
  Writing, event_of, emit_task_assigned, emit_task_started, emit_task_completed, emit_task_failed,
}
use hermes_lab.Projection.Alike.{SameTask, Alike, Alike-modify}

-- The id that a handler reads back.
pub id_back : (s : String) → or_default (or_else (if s == "" then none else some s) (some s)) "" ≡ s
id_back s = ground (arith, eq_iff s "")

pub any_id_back :
    (s : String)
    → or_default (or_else (or_else (if s == "" then none else some s) none) (some s)) "" ≡ s
any_id_back s = ground (arith, eq_iff s "")

pub on_task-Alike :
    (id at : String) (f h : TaskNode → TaskNode) (t : TaskNode) (d : Dict TaskNode) (g : TaskGraph)
    → at ≡ id
    → lookup id d ≡ some t
    → ((p : TaskNode) → SameTask t p → SameTask (f t) (h p))
    → Alike d g.tasks
    → Alike (modify id f d) (on_task at h g).tasks
unfolding on_task
on_task-Alike id at f h t d g same found h' a = rw same (Alike-modify id f h t d g.tasks found h' a)

pub on_two-Alike :
    (id a b : String) (f h k : TaskNode → TaskNode) (t : TaskNode) (d : Dict TaskNode)
    (g : TaskGraph)
    → a ≡ id
    → b ≡ id
    → lookup id d ≡ some t
    → ((p : TaskNode) → SameTask t p → SameTask (f t) (h (k p)))
    → Alike d g.tasks
    → Alike (modify id f d) (on_task a h (on_task b k g)).tasks
unfolding on_task
on_two-Alike id a b f h k t d g p q found h' al =
    rw (p, q, modify-modify id h k g.tasks)
      (Alike-modify id f (λ v. h (k v)) t d g.tasks found h' al)

module _ (py : Python) where
  started-SameTask :
      (w v : Writing) (now : ℕ) (actor : String) (decision : Value) (t p : TaskNode)
      → (actor == "") ≡ false
      → SameTask t p
      → SameTask (start now (some actor) t) (
          start_task py
            (emit_task_started v (start now (some actor) t) actor)
            (assign_task (emit_task_assigned w (start now (some actor) t) actor decision) p))
  unfolding start_task assign_task emit_task_started emit_task_assigned event_of get_text get_number
      get lookup start
  started-SameTask w v now actor decision t p named s = ground (arith, eq_iff actor "")

  pub dispatch-Alike :
      (w v : Writing) (now : ℕ) (actor : String) (decision : Value) (t : TaskNode)
      (d : Dict TaskNode) (g : TaskGraph)
      → lookup t.task_id d ≡ some t
      → (actor == "") ≡ false
      → Alike d g.tasks
      → Alike
          (modify t.task_id (start now (some actor)) d)
          (on_task_started py (emit_task_started v (start now (some actor) t) actor) (
            on_task_assigned
              (emit_task_assigned w (start now (some actor) t) actor decision)
              g)).tasks
  unfolding on_task_started on_task_assigned
  dispatch-Alike w v now actor decision t d g found named =
      on_two-Alike t.task_id _ _ (start now (some actor))
        (start_task py (emit_task_started v (start now (some actor) t) actor))
        (assign_task (emit_task_assigned w (start now (some actor) t) actor decision)) t d g
        (unfold emit_task_started event_of get_text get lookup start in id_back t.task_id)
        (unfold emit_task_assigned event_of get_text get lookup start in id_back t.task_id) found
        (λ p. started-SameTask w v now actor decision t p named)

  completed_by :
      (e : Event) (now : ℕ) (actor : String) (artifacts : List Value) (metadata : Payload)
      (t p : TaskNode)
      → actor_of e ≡ some actor
      → get_items "artifact_refs" e.payload ≡ artifacts
      → (actor == "") ≡ false
      → truthy t.assigned_actor ≡ some actor
      → SameTask t p
      → SameTask (finish now artifacts metadata t) (complete_task py e p)
  unfolding complete_task finish
  completed_by e now actor artifacts metadata t p by refs named held s =
      ground (arith, eq_iff actor "")

  pub succeed-Alike :
      (w : Writing) (now : ℕ) (actor : String) (artifacts : List Value) (metadata : Payload)
      (t : TaskNode) (d : Dict TaskNode) (g : TaskGraph)
      → lookup t.task_id d ≡ some t
      → (actor == "") ≡ false
      → truthy t.assigned_actor ≡ some actor
      → Alike d g.tasks
      → Alike
          (modify t.task_id (finish now artifacts metadata) d)
          (on_task_completed py (emit_task_completed w t actor artifacts) g).tasks
  unfolding on_task_completed emit_task_completed event_of get_text get_items get lookup of_items
  succeed-Alike w now actor artifacts metadata t d g found named held =
      on_task-Alike t.task_id _ (finish now artifacts metadata)
        (complete_task py (emit_task_completed w t actor artifacts)) t d g (id_back t.task_id) found
        (λ p.
          completed_by (emit_task_completed w t actor artifacts) now actor artifacts metadata t p
            (ground arith) (of_items-to_items artifacts) named held)

  failed-SameTask :
      (w : Writing) (now : ℕ) (actor : String) (error : Option Value) (t p : TaskNode)
      → SameTask t p
      → SameTask
          (give_up now error true t)
          (fail_task py (emit_task_failed py w t actor error true) p)
  unfolding fail_task emit_task_failed event_of get_number get lookup truth give_up
  failed-SameTask w now actor error t p s = ground arith

  pub fail-Alike :
      (w : Writing) (now : ℕ) (actor : String) (error : Option Value) (t : TaskNode)
      (d : Dict TaskNode) (g : TaskGraph)
      → lookup t.task_id d ≡ some t
      → Alike d g.tasks
      → Alike
          (modify t.task_id (give_up now error true) d)
          (on_task_failed py (emit_task_failed py w t actor error true) g).tasks
  unfolding on_task_failed
  fail-Alike w now actor error t d g found =
      on_task-Alike t.task_id _ (give_up now error true)
        (fail_task py (emit_task_failed py w t actor error true)) t d g
        (unfold emit_task_failed event_of get_text get lookup in id_back t.task_id) found
        (λ p. failed-SameTask w now actor error t p)
