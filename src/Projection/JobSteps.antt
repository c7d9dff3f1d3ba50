-- ===== src/Projection/JobSteps.antt =====
-- The event of a transition, replayed, does to a job what the transition did.
use hermes_lab.Prelude.{
  ℕ, ◌≡◌, refl, inl, inr, String, Option, none, some, Bool, true, false, ◌==◌, ◌||◌, if◌then◌else◌,
  is_some, Option-cases, arith,
}
use hermes_lab.Dict.{lookup, insert}
use hermes_lab.Dict.Laws.{lookup-insert}
use hermes_lab.Task.{Value, null, flag, number, text, items, object}
use hermes_lab.JobState.{
  State, created, planning, executing, waiting_for_capacity, verifying, repairing, completed,
  blocked, failed, cancelled, JobRecord, legal, enter, is_terminal_state, is_terminal,
}
use hermes_lab.JobState.Traces.{IsStamped}
use hermes_lab.Projection.Payload.{
  Payload, Event, Python, get, get_text, truth, drop_null, when_true,
}
use hermes_lab.Projection.Kinds.{state_name, state_of}
use hermes_lab.Projection.Jobs.{
  on_state_changed, on_completed, on_blocked, on_failed, on_cancelled, reason_of, move,
}
use hermes_lab.Projection.Bridge.{Writing, event_of, emit_job_state_changed, note_if}

-- What the runtime decides by, of a live job and a replayed one. Times agree in being set; a reason
-- that Python takes for false is none.
pub record SameJob (l p : JobRecord) : Type 0 where
  pub state : l.state ≡ p.state
  pub started : is_some l.started_at ≡ is_some p.started_at
  pub ended : is_some l.completed_at ≡ is_some p.completed_at
  pub blocked_reason : when_true l.blocked_reason ≡ when_true p.blocked_reason
  pub failure_reason : when_true l.failure_reason ≡ when_true p.failure_reason
  pub replan_count : l.replan_count ≡ p.replan_count
  pub repair_count : l.repair_count ≡ p.repair_count

-- The metadata of a transition uses no key that the projector reads.
pub record IsPlain (metadata : Payload) : Type 0 where
  pub no_reason : lookup "reason" metadata ≡ none
  pub no_detail : lookup "detail" metadata ≡ none

-- `str.lower` leaves the names of the states alone.
abbrev pub KeepsNames : Python → Type 0
KeepsNames py = (s : State) → py.lower (state_name s) ≡ state_name s

-- The handler that the type of the event selects.
unfoldable pub on_change : Python → Event → State → JobRecord → JobRecord
unfolding on_state_changed on_completed on_blocked on_failed on_cancelled
on_change py e completed = on_completed py e
on_change py e blocked = on_blocked py e
on_change py e failed = on_failed py e
on_change py e cancelled = on_cancelled py e
on_change py e s = on_state_changed py e

pub state_of-state_name : (s : State) → state_of (state_name s) ≡ some s
unfolding state_of state_name lookup
state_of-state_name created = refl
state_of-state_name planning = refl
state_of-state_name executing = refl
state_of-state_name waiting_for_capacity = refl
state_of-state_name verifying = refl
state_of-state_name repairing = refl
state_of-state_name completed = refl
state_of-state_name blocked = refl
state_of-state_name failed = refl
state_of-state_name cancelled = refl

-- The name of a state is not empty.
state_name-truthy : (s : State) → (state_name s == "") ≡ false
unfolding state_name
state_name-truthy created = refl
state_name-truthy planning = refl
state_name-truthy executing = refl
state_name-truthy waiting_for_capacity = refl
state_name-truthy verifying = refl
state_name-truthy repairing = refl
state_name-truthy completed = refl
state_name-truthy blocked = refl
state_name-truthy failed = refl
state_name-truthy cancelled = refl

kept_true : (v : Value) → when_true (some v) ≡ some v → when_true (drop_null (some v)) ≡ some v
unfolding truth
kept_true null h = absurd (ground arith)
kept_true (flag x) h = h
kept_true (number x) h = h
kept_true (text x) h = h
kept_true (items x) h = h
kept_true (object x) h = h

once_true : (o : Option Value) (v : Value) → when_true o ≡ some v → when_true (some v) ≡ some v
once_true o v e = ground arith

abbrev replans : State → Bool
replans executing = true
replans repairing = true
replans s = false

name_replans :
    (s : State) → (state_name s == "executing" || state_name s == "repairing") ≡ replans s
unfolding state_name
name_replans created = refl
name_replans planning = refl
name_replans executing = refl
name_replans waiting_for_capacity = refl
name_replans verifying = refl
name_replans repairing = refl
name_replans completed = refl
name_replans blocked = refl
name_replans failed = refl
name_replans cancelled = refl

module _ (w : Writing) (j : JobRecord) (previous : State) (reason : Option Value)
    (metadata : Payload) (plain : IsPlain metadata) where
  abbrev pub change : Event
  unfolding emit_job_state_changed
  change = emit_job_state_changed w j previous reason metadata

  abbrev named : Payload
  named = insert "previous_state" (text (state_name previous)) metadata

  abbrev told : Payload
  told = insert "new_state" (text (state_name j.state)) named

  look_told :
      (k : String)
      → lookup k told ≡ (
          if "new_state" == k
          then some (text (state_name j.state))
          else if "previous_state" == k
          then some (text (state_name previous))
          else lookup k metadata)
  look_told k = ground (
    arith,
    lookup-insert "new_state" k (text (state_name j.state)) named,
    lookup-insert "previous_state" k (text (state_name previous)) metadata,
  )

  look :
      (k : String) (r : Option Value)
      → ("reason" == k) ≡ false
      → lookup k (note_if "reason" r told) ≡ lookup k told
  look k none off = refl
  look k (some r) off = rw (lookup-insert "reason" k r told, off) refl

  why_none : reason_of told ≡ none
  unfolding reason_of get truth
  why_none = rw (look_told "reason", look_told "detail", plain.no_reason, plain.no_detail) refl

  why_some : (v : Value) → when_true (some v) ≡ some v → reason_of (insert "reason" v told) ≡ some v
  unfolding reason_of get truth
  why_some v kept = rw (lookup-insert "reason" "reason" v told, kept_true v kept) refl

  pub from_back : get_text "previous_state" change.payload ≡ some (state_name previous)
  unfolding emit_job_state_changed event_of get_text get truth
  from_back =
      rw (look "previous_state" (when_true reason) refl, look_told "previous_state")
        (rw (state_name-truthy previous) refl)

  pub to_back : get_text "new_state" change.payload ≡ some (state_name j.state)
  unfolding emit_job_state_changed event_of get_text get
  to_back =
      rw (look "new_state" (when_true reason) refl, look_told "new_state")
        (rw (state_name-truthy j.state) refl)

  pub why_back : reason_of change.payload ≡ when_true reason
  unfolding emit_job_state_changed event_of get truth reason_of
  why_back = elim (Option-cases (when_true reason)) [
    | inl e ↦ rw e why_none
    | inr (v, e) ↦ rw e (why_some v (once_true reason v e))
  ]

pub move-SameJob :
    (now t : ℕ) (target : State) (reason other : Option Value) (metadata : Payload)
    (j p : JobRecord)
    → IsStamped j
    → legal j.state target ≡ true
    → is_terminal_state target ≡ false
    → SameJob j p
    → SameJob
        (enter now target reason metadata j)
        (move (state_name j.state) (some target) t other p)
unfolding enter legal move state_name is_terminal is_terminal_state
move-SameJob now t created reason other metadata j p stamped allowed live s = ground arith
move-SameJob now t planning reason other metadata j p stamped allowed live s =
    ground (arith, name_replans j.state)
move-SameJob now t executing reason other metadata j p stamped allowed live s = ground arith
move-SameJob now t waiting_for_capacity reason other metadata j p stamped allowed live s =
    ground arith
move-SameJob now t verifying reason other metadata j p stamped allowed live s = ground arith
move-SameJob now t repairing reason other metadata j p stamped allowed live s = ground arith
move-SameJob now t completed reason other metadata j p stamped allowed live s = ground arith
move-SameJob now t blocked reason other metadata j p stamped allowed live s = ground arith
move-SameJob now t failed reason other metadata j p stamped allowed live s = ground arith
move-SameJob now t cancelled reason other metadata j p stamped allowed live s = ground arith
