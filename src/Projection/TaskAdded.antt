-- ===== src/Projection/TaskAdded.antt =====
-- Each event of a task, replayed, does to a graph what the live operation did: how a task is added.
use mathlib.Core.Path.{subst}
use hermes_lab.Prelude.{
  ◌≡◌, refl, sym, ap, String, Option, none, List, [], ◌∷◌, true, ltb, truthy, is_some, arith,
}
use hermes_lab.Dict.{Dict, lookup, insert}
use hermes_lab.Task.{Value, TaskNode, pending}
use hermes_lab.TaskGraph.{TaskGraph, add_task, adopt}
use hermes_lab.Projection.Payload.{
  Event, Python, get, get_text, get_number, get_items, of_items, to_items, texts_of, of_texts,
  of_items-to_items, texts_of-of_texts, or_else,
}
use hermes_lab.Projection.Tasks.{
  on_task_created, node_of, first_items, max_attempts_of, create_or_extend,
}
use hermes_lab.Projection.Bridge.{Writing, event_of, emit_task_created}
use hermes_lab.Projection.Alike.{SameTask, Alike, Alike-insert, Alike-lookup}
use hermes_lab.Projection.TaskSteps.{any_id_back}
use hermes_lab.Projection.TaskSteps.{any_id_back}

-- A task that has not been worked on, and that may be attempted.
pub record IsNew (t : TaskNode) : Type 0 where
  pub waits : t.status ≡ pending
  pub fresh : t.attempt ≡ 0
  pub unstarted : t.started_at ≡ none
  pub unended : t.completed_at ≡ none
  pub empty : t.artifact_refs ≡ []
  pub kept : truthy t.superseded_by ≡ none
  pub unexplained : truthy t.supersede_reason ≡ none
  pub allowed : ltb 0 t.max_attempts ≡ true

first_items-nil : (vs : List Value) → first_items vs [] ≡ vs
first_items-nil [] = refl
first_items-nil (v ∷ vs) = refl

texts_back : (ss : List String) → texts_of (of_items (to_items (of_texts ss))) ≡ ss
texts_back ss = rw (of_items-to_items (of_texts ss)) (texts_of-of_texts ss)

adopt-SameTask : (job : String) (t p : TaskNode) → SameTask t p → SameTask t (adopt job p)
unfolding adopt
adopt-SameTask job t p s = ground arith

add_missing :
    (t p : TaskNode) (d : Dict TaskNode) (g : TaskGraph)
    → p.task_id ≡ t.task_id
    → lookup t.task_id d ≡ none
    → SameTask t p
    → Alike d g.tasks
    → Alike (insert t.task_id t d) (create_or_extend (lookup p.task_id g.tasks) p g).tasks
unfolding add_task create_or_extend
add_missing t p d g id new same a =
    let missing : lookup p.task_id g.tasks ≡ none =
      Alike-lookup p.task_id d g.tasks a (rw id new) in
    subst (λ k. Alike (insert k t d) (create_or_extend (lookup p.task_id g.tasks) p g).tasks) id
      (rw (missing, add_task, missing)
        (Alike-insert p.task_id t (adopt g.job_id p) d g.tasks (adopt-SameTask g.job_id t p same)
          a))

module _ (py : Python) (job : String) (w : Writing) (reason : Option String) (t : TaskNode) where
  abbrev pub written : Event
  unfolding emit_task_created
  written = emit_task_created w t reason

  dependencies_back : texts_of (get_items "dependencies" written.payload) ≡ t.dependencies
  unfolding emit_task_created event_of get_items get lookup of_items
  dependencies_back = texts_back t.dependencies

  capabilities_back :
      texts_of (
        first_items
          (get_items "requiredCapabilities" written.payload)
          (get_items "required_capabilities" written.payload))
      ≡ t.required_capabilities
  unfolding emit_task_created event_of get_items get lookup of_items
  capabilities_back =
      rw (first_items-nil (of_items (to_items (of_texts t.required_capabilities))))
        (texts_back t.required_capabilities)

  assigned_back :
      truthy t.assigned_actor
      ≡ truthy (
          or_else
            (get_text "assignedActor" written.payload)
            (get_text "assigned_actor" written.payload))
  unfolding emit_task_created event_of get_text get lookup
  assigned_back = ground arith

  attempts_back : ltb 0 t.max_attempts ≡ true → t.max_attempts ≡ max_attempts_of written.payload
  unfolding emit_task_created event_of get_number get lookup
  attempts_back h = ground arith

  id_of_created : (node_of py job written).task_id ≡ t.task_id
  unfolding node_of emit_task_created event_of get_text get lookup
  id_of_created = any_id_back t.task_id

  created-SameTask : IsNew t → SameTask t (node_of py job written)
  unfolding node_of
  created-SameTask n = record {
    status = n.waits;
    dependencies = sym dependencies_back;
    required_capabilities = sym capabilities_back;
    assigned_actor = assigned_back;
    started = ap is_some n.unstarted;
    ended = ap is_some n.unended;
    attempt = n.fresh;
    max_attempts = attempts_back n.allowed;
    artifact_refs = n.empty;
    superseded_by = n.kept;
    supersede_reason = n.unexplained;
  }

  pub create-Alike :
      (d : Dict TaskNode) (g : TaskGraph)
      → lookup t.task_id d ≡ none
      → IsNew t
      → Alike d g.tasks
      → Alike (insert t.task_id t d) (on_task_created py job written g).tasks
  unfolding on_task_created
  create-Alike d g new n =
      add_missing t (node_of py job written) d g id_of_created new (created-SameTask n)
