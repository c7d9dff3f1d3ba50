-- ===== src/Projection/Refines.antt =====
-- runtime/storage/projector.py against the running engine: replaying what an act wrote keeps the
-- replayed state the same as the live one.
use hermes_lab.Prelude.{
  ℕ, ◌≡◌, refl, ap, ◌∙◌, inl, inr, String, Option, [], ◌∷◌, true, false, Bool-cases, arith,
}
use hermes_lab.Dict.{lookup}
use hermes_lab.Task.{Value}
use hermes_lab.JobState.{State, JobRecord, transition_to, state_eq, legal, enter}
use hermes_lab.JobState.Traces.{IsStamped}
use hermes_lab.Projection.Payload.{Payload, Event, Python}
use hermes_lab.Projection.Kinds.{kind_of}
use hermes_lab.JobState
use hermes_lab.Projection.Bridge.{Writing, emit_job_state_changed, event_of, change_type}
use hermes_lab.Projection.Defs.{Fold, apply_kind, replay}
use hermes_lab.Projection.JobSteps.{IsPlain, KeepsNames, on_change}
use hermes_lab.Projection.JobChanges.{change-SameJob, enter-state}
use hermes_lab.Projection.Live.{
  Live, Act, transition, create, dispatch, succeed, fail, reroute, supersede, cancel, depend,
  remove, wait, block, count_repair, perform, after_transition,
}
use hermes_lab.Projection.Sound.{SameState, IsSound}
use hermes_lab.Projection.TaskActs.{
  dispatch-SameState, succeed-SameState, fail-SameState, reroute-SameState, supersede-SameState,
  cancel-SameState, create-SameState,
}

-- The event type of a transition selects the handler of its target.
kind_of_change :
    (py : Python) (id : String) (e : Event) (target : State) (f : Fold)
    → apply_kind py id (kind_of (change_type target)) e f
      ≡ record f { job = on_change py e target f.job }
unfolding apply_kind kind_of lookup on_change
kind_of_change py id e JobState.created f = refl
kind_of_change py id e JobState.planning f = refl
kind_of_change py id e JobState.executing f = refl
kind_of_change py id e JobState.waiting_for_capacity f = refl
kind_of_change py id e JobState.verifying f = refl
kind_of_change py id e JobState.repairing f = refl
kind_of_change py id e JobState.completed f = refl
kind_of_change py id e JobState.blocked f = refl
kind_of_change py id e JobState.failed f = refl
kind_of_change py id e JobState.cancelled f = refl

apply_change :
    (py : Python) (id : String) (e : Event) (target : State) (f : Fold)
    → e.event_type ≡ change_type target
    → replay py id (e ∷ []) f ≡ record f { job = on_change py e target f.job }
unfolding replay
apply_change py id e target f typed =
    ap (λ k. apply_kind py id (kind_of k) e f) typed ∙ kind_of_change py id e target f

state_eq_refl : (a : State) → state_eq a a ≡ true
state_eq_refl a = ground arith

state_eq_sym : (a b : State) → state_eq a b ≡ state_eq b a
state_eq_sym a b = ground arith

module _ (py : Python) (id : String) (w v : Writing) (s : Live) (f : Fold)
    (same : SameState s f) where
  transition-SameState :
      (now : ℕ) (target : State) (reason : Option Value) (metadata : Payload)
      → KeepsNames py
      → IsStamped s.job
      → IsPlain metadata
      → SameState
          (perform py w v (transition now target reason metadata) s).0
          (replay py id (perform py w v (transition now target reason metadata) s).1 f)
  unfolding perform after_transition transition_to replay
  transition-SameState now target reason metadata keeps stamped plain =
      elim (Bool-cases (state_eq target s.job.state)) [
        | inl kept ↦ rw (kept, state_eq_refl s.job.state) same
        | inr moved ↦ elim (Bool-cases (legal s.job.state target)) [
          | inl allowed ↦
              let apart : state_eq s.job.state (enter now target reason metadata s.job).state
                  ≡ false =
                rw (enter-state now target reason metadata s.job, state_eq_sym s.job.state target)
                  moved in
              rw (moved, allowed)
                (rw (apart, apply_change py id e target f typed)
                  (record {
                    jobs =
                        change-SameJob py w now target reason metadata s.job f.job keeps plain
                          stamped allowed same.jobs;
                    tasks = same.tasks;
                  }))
          | inr refused ↦ rw (moved, refused) same
        ]
      ]
    where
      j' : JobRecord
      j' = enter now target reason metadata s.job

      e : Event
      e = emit_job_state_changed w j' s.job.state reason metadata

      typed : e.event_type ≡ change_type target
      typed =
          unfold emit_job_state_changed event_of in
          ap change_type (enter-state now target reason metadata s.job)

  -- Replaying what an act wrote keeps a replayed state the same as the live one.
  pub perform-SameState :
      (a : Act)
      → KeepsNames py
      → IsStamped s.job
      → IsSound a s
      → SameState (perform py w v a s).0 (replay py id (perform py w v a s).1 f)
  perform-SameState (transition now target reason metadata) keeps h sound =
      transition-SameState now target reason metadata keeps h sound
  perform-SameState (create t reason) keeps h sound =
      create-SameState py id w v s f same t reason sound
  perform-SameState (dispatch now k actor decision) keeps h sound =
      dispatch-SameState py id w v s f same now k actor decision sound
  perform-SameState (succeed now k actor artifacts metadata) keeps h sound =
      succeed-SameState py id w v s f same now k actor artifacts metadata sound
  perform-SameState (fail now k actor error) keeps h sound =
      fail-SameState py id w v s f same now k actor error sound
  perform-SameState (reroute k to reason) keeps h sound =
      reroute-SameState py id w v s f same k to reason sound
  perform-SameState (supersede now k by reason) keeps h sound =
      supersede-SameState py id w v s f same now k by reason
  perform-SameState (cancel now k reason) keeps h sound =
      cancel-SameState py id w v s f same now k reason sound
  perform-SameState (depend k dep) keeps h sound = absurd sound
  perform-SameState (remove k) keeps h sound = absurd sound
  perform-SameState (wait k) keeps h sound = absurd sound
  perform-SameState (block k reason) keeps h sound = absurd sound
  perform-SameState count_repair keeps h sound = absurd sound
