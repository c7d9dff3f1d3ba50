-- ===== src/Projection/Jobs.antt =====
-- runtime/storage/projector.py: what each event of a job writes to the job.
use Prim.Native.String.{◌++◌}
use hermes_lab.Prelude.{
  ℕ, ◌+◌, String, Option, none, some, [], ◌∷◌, Bool, true, false, ◌==◌, ◌||◌, if◌then◌else◌, or_now,
}
use hermes_lab.Dict.{insert, remove, lookup}
use hermes_lab.Task.{Value, flag, number, text, items, nil, object}
use hermes_lab.JobState.{
  State, created, planning, executing, waiting_for_capacity, repairing, completed, blocked, failed,
  cancelled, JobRecord, is_terminal,
}
use hermes_lab.Projection.Payload.{
  Payload, Event, Python, get, get_true, get_text, get_fields, to_fields, truth, or_else,
  or_default,
}
use hermes_lab.Projection.Kinds.{state_of}

-- `JobRecord(job_id=job_id, goal="")`, made at the time `now`.
unfoldable pub blank_job : ℕ → String → JobRecord
blank_job now id = record {
  job_id = id;
  goal = "";
  title = some ("Job " ++ id);
  state = created;
  repository = none;
  branch = none;
  priority = "P1";
  created_at = now;
  started_at = none;
  completed_at = none;
  current_phase = none;
  blocked_reason = none;
  failure_reason = none;
  replan_count = 0;
  repair_count = 0;
  assigned_agents = [];
  metadata = [];
}

-- `metadata.update(new)`
unfoldable pub update : Payload → Payload → Payload
update old [] = old
update old ((k, v) ∷ new) = update (insert k v old) new

abbrev pub at_work : State → Bool
at_work planning = true
at_work executing = true
at_work _ = false

-- `if job.state in {PLANNING, EXECUTING} and not job.started_at`
abbrev pub stamp_start : ℕ → JobRecord → JobRecord
stamp_start t j = if at_work j.state then record j { started_at = or_now j.started_at t } else j

-- `if job.is_terminal and not job.completed_at`
abbrev pub stamp_end : ℕ → JobRecord → JobRecord
unfolding is_terminal
stamp_end t j = if is_terminal j then record j { completed_at = or_now j.completed_at t } else j

-- The `if`/`elif` chain on the new state.
abbrev pub count_change : String → Option Value → JobRecord → JobRecord
count_change previous reason j = elim j.state [
  | blocked ↦ record j { blocked_reason = reason }
  | failed ↦ record j { failure_reason = reason }
  | repairing ↦ record j { repair_count = j.repair_count + 1 }
  | planning ↦
      if previous == "executing" || previous == "repairing"
      then record j { replan_count = j.replan_count + 1 }
      else j
  | _ ↦ j
]

abbrev pub set_state : Option State → JobRecord → JobRecord
set_state none j = j
set_state (some s) j = record j { state = s }

-- `job.state_changed` up to the metadata, with the states that it names.
unfoldable pub move : String → Option State → ℕ → Option Value → JobRecord → JobRecord
move previous new t reason j =
    count_change previous reason (stamp_end t (stamp_start t (set_state new j)))

unfoldable pub add_metadata : Payload → JobRecord → JobRecord
unfolding update get_fields
add_metadata p j = record j { metadata = update j.metadata (get_fields "metadata" p) }

-- `job.metadata.setdefault("planning", {})[key] = v`
unfoldable pub set_planning : String → Value → JobRecord → JobRecord
unfolding get_fields to_fields
set_planning k v j = record j {
  metadata =
      insert "planning" (object (to_fields (insert k v (get_fields "planning" j.metadata))))
        j.metadata;
}

-- payload.get(key, default)
abbrev pub get_or : String → Value → Payload → Value
unfolding lookup
get_or k default p = or_default (lookup k p) default

abbrev pub text_or : Value → String → String
text_or (text s) default = s
text_or v default = default

-- `payload.get("goal") or payload.get("title") or ""`
abbrev pub goal_of : Payload → String
unfolding get_text
goal_of p = or_default (or_else (get_text "goal" p) (get_text "title" p)) ""

abbrev pub close : State → ℕ → JobRecord → JobRecord
close s t j = record j { state = s; completed_at = or_now j.completed_at t }

-- `payload.get("reason") or payload.get("detail")`
unfoldable pub reason_of : Payload → Option Value
reason_of p = or_else (get_true "reason" p) (get_true "detail" p)

abbrev pub note_reason : Option Value → JobRecord → JobRecord
note_reason none j = j
note_reason (some r) j = record j { metadata = insert "waiting_for_capacity_reason" r j.metadata }

unfoldable pub on_waiting : Event → JobRecord → JobRecord
unfolding get truth
on_waiting e j =
    note_reason (get_true "reason" e.payload) (record j { state = waiting_for_capacity })

unfoldable pub on_restored : Event → JobRecord → JobRecord
on_restored e j = record j {
  state = executing;
  metadata = remove "waiting_for_capacity_reason" j.metadata;
}

abbrev pub plan_goal : Option String → JobRecord → JobRecord
plan_goal none j = j
plan_goal (some g) j = if j.goal == "" then record j { goal = g } else j

abbrev pub copy_planning : String → Option Value → JobRecord → JobRecord
unfolding set_planning
copy_planning k none j = j
copy_planning k (some v) j = set_planning k v j

unfoldable pub on_planning_started : Event → JobRecord → JobRecord
unfolding get truth get_text set_planning
on_planning_started e j = copy_planning "repo_dir" (get_true "repoDir" e.payload) (
    copy_planning "constraints" (get_true "constraints" e.payload)
      (set_planning "started_at" (text e.occurred_at) (plan_goal (get_text "goal" e.payload) j)))

unfoldable pub on_evidence : Event → JobRecord → JobRecord
unfolding set_planning to_fields
on_evidence e j =
    set_planning "evidence_collected"
      (object (
        to_fields (
          ("file_count", get_or "fileCount" (number 0) e.payload)
          ∷ ("summary", get_or "summary" (text "") e.payload)
          ∷ ("uncertainty", get_or "uncertainty" (items nil) e.payload)
          ∷ [])))
      j

unfoldable pub on_planning_generated : Event → JobRecord → JobRecord
unfolding get truth get_fields set_planning
on_planning_generated e j =
    let mode = get_or "planning_mode" (text "model_generated") (get_fields "plan" e.payload) in
    set_planning "planning_mode" (or_default (get_true "planning_mode" e.payload) mode) (
      set_planning "summary" (get_or "summary" (text "") e.payload) (
        set_planning "generated_plan"
          (or_default (get_true "plan" e.payload) (object (to_fields []))) j))

unfoldable pub on_planning_validated : Event → JobRecord → JobRecord
unfolding set_planning
on_planning_validated e j =
    set_planning "task_count" (get_or "taskCount" (number 0) e.payload)
      (set_planning "validated" (get_or "valid" (flag true) e.payload) j)

unfoldable pub on_planning_failed : Event → JobRecord → JobRecord
unfolding set_planning
on_planning_failed e j = set_planning "reasons" (get_or "reasons" (items nil) e.payload) (
    set_planning "error" (get_or "error" (text "") e.payload) (set_planning "failed" (flag true) j))

unfoldable pub on_rehydrated : Event → JobRecord → JobRecord
on_rehydrated e j = record j {
  metadata = insert "last_rehydrated_at" (text e.occurred_at) j.metadata;
}

abbrev pub note_value : String → Option Value → Payload → Payload
note_value k none m = m
note_value k (some v) m = insert k v m

abbrev pub when_object : Option Value → Option Value
when_object (some (object fs)) = some (object fs)
when_object v = none

unfoldable pub on_resumed : Event → JobRecord → JobRecord
unfolding get truth
on_resumed e j =
    let rto = or_else (get_true "rtoSeconds" e.payload) (get "rto_seconds" e.payload) in
    record j {
      metadata = note_value "recovery_summary" (when_object (get "summary" e.payload)) (
          insert "recovery_resumed_at" (text e.occurred_at)
            (note_value "recovery_rto_seconds" rto j.metadata));
    }

module _ (py : Python) where
  -- The time of the event.
  abbrev pub at : Event → ℕ
  at e = py.stamp e.occurred_at

  abbrev pub title_of : String → Payload → String
  unfolding get_text
  title_of id p =
      or_default (get_text "title" p)
        (if goal_of p == "" then "Job " ++ id else py.prefix 80 (goal_of p))

  abbrev pub stamp_of : Event → Option String → ℕ
  stamp_of e none = at e
  stamp_of e (some s) = py.stamp s

  unfoldable pub on_created : Event → JobRecord → JobRecord
  unfolding get_text
  on_created e j = add_metadata e.payload (record j {
    goal = goal_of e.payload;
    title = some (title_of j.job_id e.payload);
    priority = text_or (get_or "priority" (text "P1") e.payload) "P1";
    repository = get_text "repository" e.payload;
    branch = get_text "branch" e.payload;
    created_at = stamp_of e (get_text "createdAt" e.payload);
    state = created;
  })

  unfoldable pub on_state_changed : Event → JobRecord → JobRecord
  on_state_changed e j =
      let previous = py.lower (or_default (get_text "previous_state" e.payload) "") in
      let new = py.lower (or_default (get_text "new_state" e.payload) "") in
      add_metadata e.payload (move previous (state_of new) (at e) (get "reason" e.payload) j)

  unfoldable pub on_completed : Event → JobRecord → JobRecord
  on_completed e j = close completed (at e) j

  unfoldable pub on_blocked : Event → JobRecord → JobRecord
  unfolding get truth
  on_blocked e j = record (close blocked (at e) j) { blocked_reason = reason_of e.payload }

  unfoldable pub on_failed : Event → JobRecord → JobRecord
  unfolding get truth
  on_failed e j = record (close failed (at e) j) { failure_reason = reason_of e.payload }

  unfoldable pub on_cancelled : Event → JobRecord → JobRecord
  on_cancelled e j = close cancelled (at e) j
