-- ===== src/Projection/Replayed.antt =====
-- runtime/storage/projector.py: the projection of everything that a run of the engine wrote.
use mathlib.Core.Path.{subst}
use hermes_lab.Prelude.{
  ℕ, ◌≡◌, refl, sym, String, Option, none, some, List, [], ◌∷◌, ◌++◌, Result, arith,
}
use hermes_lab.Dict.{lookup}
use hermes_lab.Task.{Value, TaskNode}
use hermes_lab.TaskGraph.{TaskGraph, add_task}
use hermes_lab.JobState.{State}
use hermes_lab.JobState.Traces.{IsStamped, Request, follow, follow-IsStamped}
use hermes_lab.Projection.Payload.{Payload, Event, Python}
use hermes_lab.Projection.Kinds.{kind_of}
use hermes_lab.Projection.Bridge.{Writing}
use hermes_lab.Projection.Defs.{Fold, apply_kind, replay}
use hermes_lab.Projection.JobSteps.{KeepsNames}
use hermes_lab.Projection.Live.{
  Live, Act, transition, create, dispatch, succeed, fail, reroute, supersede, cancel, depend,
  remove, wait, block, count_repair, perform, after_transition, with_task, after_add, cancel_one,
}
use hermes_lab.Projection.Sound.{SameState, IsSound}
use hermes_lab.Projection.Refines.{perform-SameState}

-- An act of the engine, with what its events are written with.
pub record Turn : Type 0 where
  pub act : Act
  pub first : Writing
  pub second : Writing

abbrev request : ℕ → State → Option Value → Payload → Request
request now target reason metadata = record {
  now = now;
  target = target;
  reason = reason;
  metadata = metadata;
}

module _ (py : Python) where
  -- The engine after its acts, and all that it wrote, in order.
  unfoldable pub play : List Turn → Live → Live × List Event
  unfolding perform
  play [] s = (s, [])
  play (t ∷ ts) s =
      let (s', es) = perform py t.first t.second t.act s in
      let (s'', es') = play ts s' in (s'', es ++ es')

  -- Every act is sound where it is done.
  unfoldable pub AreSound : List Turn → Live → Type 0
  unfolding perform
  AreSound [] s = Unit
  AreSound (t ∷ ts) s = IsSound t.act s × AreSound ts (perform py t.first t.second t.act s).0

  with_task-job :
      (o : Option TaskNode) (f : TaskNode → Live × List Event) (s : Live)
      → ((t : TaskNode) → (f t).0.job ≡ s.job)
      → (with_task o f s).0.job ≡ s.job
  with_task-job none f s h = refl
  with_task-job (some t) f s h = h t

  after_add-job :
      (w v : Writing) (t : TaskNode) (reason : Option String) (r : Result TaskGraph) (s : Live)
      → (after_add py w v t reason r s).0.job ≡ s.job
  unfolding after_add
  after_add-job w v t reason r s = ground arith

  transition-job :
      (w v : Writing) (now : ℕ) (target : State) (reason : Option Value) (metadata : Payload)
      (s : Live)
      → (perform py w v (transition now target reason metadata) s).0.job
        ≡ follow s.job (request now target reason metadata ∷ [])
  unfolding perform after_transition follow
  transition-job w v now target reason metadata s = ground arith

  perform-IsStamped :
      (w v : Writing) (a : Act) (s : Live) → IsStamped s.job → IsStamped (perform py w v a s).0.job
  unfolding perform after_add cancel_one
  perform-IsStamped w v (transition now target reason metadata) s h =
      rw (transition-job w v now target reason metadata s)
        (follow-IsStamped s.job (request now target reason metadata ∷ []) h)
  perform-IsStamped w v (create t reason) s h =
      rw (after_add-job w v t reason (add_task t s.graph) s) h
  perform-IsStamped w v (dispatch now id actor decision) s h =
      subst IsStamped (sym (with_task-job _ _ s (λ t. refl))) h
  perform-IsStamped w v (succeed now id actor artifacts metadata) s h =
      subst IsStamped (sym (with_task-job _ _ s (λ t. refl))) h
  perform-IsStamped w v (fail now id actor error) s h =
      subst IsStamped (sym (with_task-job _ _ s (λ t. refl))) h
  perform-IsStamped w v (reroute id to reason) s h =
      subst IsStamped (sym (with_task-job _ _ s (λ t. refl))) h
  perform-IsStamped w v (supersede now id by reason) s h =
      subst IsStamped (sym (with_task-job _ _ s (λ t. refl))) h
  perform-IsStamped w v (cancel now id reason) s h =
      rw
        (with_task-job (lookup id s.graph.tasks) (λ t. cancel_one py w v now reason t s) s
          (λ t. ground arith))
        h
  perform-IsStamped w v (depend k dep) s h = h
  perform-IsStamped w v (remove k) s h = h
  perform-IsStamped w v (wait k) s h = h
  perform-IsStamped w v (block k reason) s h = h
  perform-IsStamped w v count_repair s h = record { ended = h.ended; begun = h.begun }

  replay-append :
      (id : String) (es fs : List Event) (f : Fold)
      → replay py id (es ++ fs) f ≡ replay py id fs (replay py id es f)
  unfolding replay
  replay-append id [] fs f = refl
  replay-append id (e ∷ es) fs f =
      replay-append id es fs (apply_kind py id (kind_of e.event_type) e f)

  pub play-SameState :
      (id : String) (ts : List Turn) (s : Live) (f : Fold)
      → KeepsNames py
      → IsStamped s.job
      → AreSound ts s
      → SameState s f
      → SameState (play ts s).0 (replay py id (play ts s).1 f)
  unfolding play replay AreSound
  play-SameState id [] s f keeps h sound same = same
  play-SameState id (t ∷ ts) s f keeps h sound same =
      let (s', es) = perform py t.first t.second t.act s in
      rw (replay-append id es (play ts s').1 f) (
        play-SameState id ts s' (replay py id es f) keeps
          (perform-IsStamped t.first t.second t.act s h) sound.1
          (perform-SameState py id t.first t.second s f same t.act keeps h sound.0))
