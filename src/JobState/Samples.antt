-- ===== src/JobState/Samples.antt =====
-- The theorems on job states applied to a job.
use hermes_lab.Prelude.{◌≡◌, refl, none, some, List, [], ◌∷◌, true}
use hermes_lab.JobState.Defs.{
  State, created, planning, executing, verifying, completed, cancelled, JobRecord,
  is_terminal_state, snapshot, restore, transition_to, legal, enter,
}
use hermes_lab.JobState.Traces.{
  Request, IsStamped, follow, follow-IsStamped, completed_needs_verifying, asks,
}
use hermes_lab.JobState.Snapshot.{restore-follow}

abbrev job_in : State → JobRecord
job_in state = record {
  job_id = "job";
  goal = "a goal";
  title = none;
  state = state;
  repository = none;
  branch = none;
  priority = "P1";
  created_at = 10;
  started_at = none;
  completed_at = none;
  current_phase = none;
  blocked_reason = none;
  failure_reason = none;
  replan_count = 0;
  repair_count = 0;
  assigned_agents = [];
  metadata = [];
}

abbrev done_job : JobRecord
done_job = record (job_in cancelled) { completed_at = some 20 }

abbrev request : State → Request
request s = record { now = 20; target = s; reason = none; metadata = [] }

abbrev requests : List Request
requests = request planning ∷ request executing ∷ request verifying ∷ request completed ∷ []

follow-IsStamped_example : IsStamped (follow (job_in created) requests)
follow-IsStamped_example =
    follow-IsStamped (job_in created) requests
      (unfold is_terminal_state in record { ended = refl; begun = λ n. absurd (n refl) })

completed_needs_verifying_example : asks verifying requests ≡ true
completed_needs_verifying_example =
    completed_needs_verifying (job_in created) requests refl
      (unfold follow transition_to legal enter is_terminal_state in refl)

restore-follow_example :
    restore (snapshot (job_in created)) (follow (job_in created) requests) ≡ job_in created
restore-follow_example = restore-follow (job_in created) requests
