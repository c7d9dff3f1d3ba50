-- ===== src/Projection/JobChanges.antt =====
-- A transition and the replay of its event keep a live and a replayed job the same.
use hermes_lab.Prelude.{
  ℕ, ◌≡◌, refl, ap, ◌∙◌, inl, inr, Option, some, true, false, Bool-cases, arith,
}
use hermes_lab.Task.{Value}
use hermes_lab.JobState.{
  State, created, planning, executing, waiting_for_capacity, verifying, repairing, completed,
  blocked, failed, cancelled, JobRecord, legal, enter, is_terminal_state,
}
use hermes_lab.JobState.Traces.{IsStamped}
use hermes_lab.Projection.Payload.{Payload, Event, Python, get, get_text, when_true}
use hermes_lab.Projection.Kinds.{state_name}
use hermes_lab.Projection.Jobs.{
  on_state_changed, on_completed, on_blocked, on_failed, on_cancelled, reason_of, add_metadata,
}
use hermes_lab.Projection.Bridge.{Writing, emit_job_state_changed}
use hermes_lab.Projection.JobSteps.{
  SameJob, IsPlain, KeepsNames, on_change, from_back, to_back, why_back, state_of-state_name,
  move-SameJob,
}

metadata-SameJob :
    (j p : JobRecord) (m : Payload) → SameJob j p → SameJob j (record p { metadata = m })
metadata-SameJob j p m s = record {
  state = s.state;
  started = s.started;
  ended = s.ended;
  blocked_reason = s.blocked_reason;
  failure_reason = s.failure_reason;
  replan_count = s.replan_count;
  repair_count = s.repair_count;
}

pub enter-state :
    (now : ℕ) (target : State) (reason : Option Value) (metadata : Payload) (j : JobRecord)
    → (enter now target reason metadata j).state ≡ target
unfolding enter
enter-state now target reason metadata j = ground arith

module _ (py : Python) (keeps : KeepsNames py) (e : Event) (now : ℕ) (reason : Option Value)
    (metadata : Payload) (j p : JobRecord) (stamped : IsStamped j) (s : SameJob j p) where
  open_change :
      (target : State)
      → legal j.state target ≡ true
      → is_terminal_state target ≡ false
      → get_text "previous_state" e.payload ≡ some (state_name j.state)
      → get_text "new_state" e.payload ≡ some (state_name target)
      → SameJob (enter now target reason metadata j) (on_state_changed py e p)
  unfolding on_state_changed add_metadata
  open_change target allowed lives from to =
      rw (from, to, keeps j.state, keeps target, state_of-state_name target)
        (metadata-SameJob _ _ _ (
          move-SameJob now (py.stamp e.occurred_at) target reason (get "reason" e.payload) metadata
            j p stamped allowed lives s))

  closed_change :
      (target : State)
      → legal j.state target ≡ true
      → is_terminal_state target ≡ true
      → reason_of e.payload ≡ when_true reason
      → SameJob (enter now target reason metadata j) (on_change py e target p)
  unfolding enter legal is_terminal_state on_completed on_blocked on_failed on_cancelled on_change
  closed_change created allowed ends why = ground arith
  closed_change planning allowed ends why = ground arith
  closed_change executing allowed ends why = ground arith
  closed_change waiting_for_capacity allowed ends why = ground arith
  closed_change verifying allowed ends why = ground arith
  closed_change repairing allowed ends why = ground arith
  closed_change completed allowed ends why = ground arith
  closed_change blocked allowed ends why = ground arith
  closed_change failed allowed ends why = ground arith
  closed_change cancelled allowed ends why = ground arith

on_change_open :
    (py : Python) (e : Event) (p : JobRecord) (target : State)
    → is_terminal_state target ≡ false
    → on_change py e target p ≡ on_state_changed py e p
unfolding on_change is_terminal_state
on_change_open py e p created lives = refl
on_change_open py e p planning lives = refl
on_change_open py e p executing lives = refl
on_change_open py e p waiting_for_capacity lives = refl
on_change_open py e p verifying lives = refl
on_change_open py e p repairing lives = refl
on_change_open py e p completed lives = absurd (ground arith)
on_change_open py e p blocked lives = absurd (ground arith)
on_change_open py e p failed lives = absurd (ground arith)
on_change_open py e p cancelled lives = absurd (ground arith)

-- A legal transition of a job, whose stamps agree with its state and whose metadata uses no key that
-- the projector reads, and the replay of its event.
pub change-SameJob :
    (py : Python) (w : Writing) (now : ℕ) (target : State) (reason : Option Value)
    (metadata : Payload) (j p : JobRecord)
    → KeepsNames py
    → IsPlain metadata
    → IsStamped j
    → legal j.state target ≡ true
    → SameJob j p
    → SameJob (enter now target reason metadata j) (
        on_change py
          (emit_job_state_changed w (enter now target reason metadata j) j.state reason metadata)
          target
          p)
unfolding emit_job_state_changed
change-SameJob py w now target reason metadata j p keeps plain stamped allowed s =
    elim (Bool-cases (is_terminal_state target)) [
      | inl ends ↦
          closed_change py keeps e now reason metadata j p stamped s target allowed ends
            (why_back w j' j.state reason metadata plain)
      | inr lives ↦ rw (on_change_open py e p target lives) (
          open_change py keeps e now reason metadata j p stamped s target allowed lives
            (from_back w j' j.state reason metadata plain)
            (to_back w j' j.state reason metadata plain
              ∙ ap (λ t. some (state_name t)) (enter-state now target reason metadata j)))
    ]
  where
    j' : JobRecord
    j' = enter now target reason metadata j

    e : Event
    e = emit_job_state_changed w j' j.state reason metadata
