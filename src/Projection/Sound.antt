-- ===== src/Projection/Sound.antt =====
-- What it takes for an act to be told by its events, and what it means that a replayed state tells
-- the same as the live one.
use hermes_lab.Prelude.{◌≡◌, String, some, true, false, ◌==◌, truthy, is_some, elem}
use hermes_lab.Dict.{lookup}
use hermes_lab.Task.{TaskNode, cancelled}
use hermes_lab.TaskGraph.{keeps_status}
use hermes_lab.Projection.Defs.{Fold}
use hermes_lab.Projection.Alike.{Alike}
use hermes_lab.Projection.JobSteps.{SameJob, IsPlain}
use hermes_lab.Projection.TaskAdded.{IsNew}
use hermes_lab.Projection.Live.{
  Live, Act, transition, create, dispatch, succeed, fail, reroute, supersede, cancel, depend,
  remove, wait, block, count_repair,
}

pub record SameState (s : Live) (f : Fold) : Type 0 where
  pub jobs : SameJob s.job f.job
  pub tasks : Alike s.graph.tasks f.graph.tasks

-- What the act relies on of the task in hand.
abbrev pub OfTask : String → Live → (TaskNode → Type 0) → Type 0
OfTask id s P = (t : TaskNode) → lookup id s.graph.tasks ≡ some t → (t.task_id ≡ id) × P t

-- What the callers see to: a task stands under its id, actors have names, a task is completed by
-- the actor it is assigned to, only a task that still runs or waits is rerouted, and what was
-- announced as cancelled is still cancelled when it is cancelled again. What writes no event is not
-- sound.
abbrev pub IsSound : Act → Live → Type 0
IsSound (transition now target reason metadata) s = IsPlain metadata
IsSound (create t reason) s = IsNew t
IsSound (dispatch now id actor decision) s = ((actor == "") ≡ false) × OfTask id s (λ t. Unit)
IsSound (succeed now id actor artifacts metadata) s =
    ((actor == "") ≡ false) × OfTask id s (λ t. truthy t.assigned_actor ≡ some actor)
IsSound (fail now id actor error) s = OfTask id s (λ t. Unit)
IsSound (reroute id to reason) s =
    ((to == "") ≡ false) × OfTask id s (λ t. keeps_status t.status ≡ false)
IsSound (supersede now id by reason) s = Unit
IsSound (cancel now id reason) s =
    OfTask id s
      (λ t. elem id s.announced ≡ true → (t.status ≡ cancelled) × (is_some t.completed_at ≡ true))
IsSound (depend id dep) s = ⊥
IsSound (remove id) s = ⊥
IsSound (wait id) s = ⊥
IsSound (block id reason) s = ⊥
IsSound count_repair s = ⊥
