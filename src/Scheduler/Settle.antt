-- ===== src/Scheduler/Settle.antt =====
-- runtime/scheduler.py: what `_execute_task_wrapper` does with the result of a run.
use hermes_lab.Prelude.{◌>>=◌}
use hermes_lab.Prelude.{
  ℕ, ◌-◌, String, Option, none, some, List, [], ◌∷◌, Bool, true, false, ◌||◌, ltb, if◌then◌else◌,
  ◌==◌, Result, ok, err,
}
use hermes_lab.Dict.{Dict, lookup}
use hermes_lab.Task.{Value, TaskNode, ready, is_ready, is_running}
use hermes_lab.TaskGraph.{TaskGraph, update_task, mark_success, mark_failure, mark_cancelled}
use hermes_lab.CircuitBreaker.{registry_success, registry_failure}
use hermes_lab.Capacity.{
  FailureClass, rate_limited, token_quota_exhausted, context_too_large, authentication, billing,
  provider_outage, model_unavailable, network, UsageSnapshot, UsageReport, record_snapshot,
  record_usage, record_provider_success, record_provider_failure, classify,
}
use hermes_lab.Scheduler.Routing.{Services, find_alternative_actor}

-- What the metadata of a result says of usage: a snapshot as `UsageSnapshot.from_dict` returns it, or
-- the counts of the tokens in, out and cached, 0 where they are missing. Metadata that is no dict
-- gives no counts.
pub data Telemetry : Type 0 where
  reported : UsageSnapshot → Telemetry
  counted : ℕ → ℕ → ℕ → Telemetry

-- TaskExecutionResult, with what the failure branch reads out of it: the lowered text of the error,
-- the status code, the delay in the headers and the reset time in the message. `observed` is the text
-- of the clock for the snapshot that counts make. `telemetry` is what `from_dict` or the calls of `int`
-- return, or raise.
pub record TaskResult : Type 0 where
  pub is_success : Bool
  pub artifacts : List Value
  pub result_metadata : Dict Value
  pub failure : Option Value
  pub failure_text : String
  pub message : String
  pub status_code : Option ℕ
  pub header_delay : Option ℕ
  pub message_reset : Option ℕ
  pub telemetry : Result Telemetry
  pub observed : String

-- The call of `record_usage`, the arguments that it leaves out at their defaults.
abbrev pub counts_report : Option String → String → String → String → ℕ → ℕ → ℕ → UsageReport
counts_report job provider actor observed i o c = record {
  reporter = provider;
  for_job = job;
  by_actor = some actor;
  with_model = none;
  tokens_in = i;
  tokens_out = o;
  tokens_cached = c;
  left_requests = none;
  left_tokens = none;
  limit_requests = none;
  limit_tokens = none;
  window = none;
  window_used = none;
  resets = none;
  origin = "internal_accounting";
  clock = observed;
}

unfoldable pub record_telemetry :
    Option String → String → String → String → Result Telemetry → Services → Result Services
record_telemetry job provider actor observed (err x) v = err x
record_telemetry job provider actor observed (ok (reported s)) v =
    if ltb 0 s.tokens_used || s.source == "provider_reported"
    then ok (record v { usages = (record_snapshot s job v.usages).0 })
    else ok v
record_telemetry job provider actor observed (ok (counted i o c)) v =
    if ltb 0 i || ltb 0 o || ltb 0 c
    then ok (record v {
      usages = (record_usage (counts_report job provider actor observed i o c) v.usages).0;
    })
    else ok v

-- The classes that count against the provider and ask for another actor.
abbrev pub is_provider_failure : FailureClass → Bool
is_provider_failure rate_limited = true
is_provider_failure token_quota_exhausted = true
is_provider_failure provider_outage = true
is_provider_failure billing = true
is_provider_failure authentication = true
is_provider_failure network = true
is_provider_failure model_unavailable = true
is_provider_failure context_too_large = true
is_provider_failure _ = false

-- The classes after which a task waits and gets its attempt back.
abbrev pub is_wait : FailureClass → Bool
is_wait rate_limited = true
is_wait token_quota_exhausted = true
is_wait provider_outage = true
is_wait network = true
is_wait _ = false

-- What becomes of the task.
pub data Outcome : Type 0 where
  success wait fail : Outcome
  reroute : String → Outcome

abbrev positive : Option ℕ → Bool
positive none = false
positive (some d) = ltb 0 d

-- 900 seconds where an exhausted quota gives no delay
abbrev pub quota_delay : FailureClass → Option ℕ → Option ℕ
quota_delay token_quota_exhausted d = if positive d then d else some 900_000_000
quota_delay _ d = d

abbrev pub outcome_of : FailureClass → Option String → Outcome
outcome_of class none = if is_wait class then wait else fail
outcome_of class (some actor) =
    if actor == "" then (if is_wait class then wait else fail) else reroute actor

module _ (low_tokens low_requests : ℕ → ℕ → Bool) (now : ℕ) (ranked : List String) where
  -- The registries after a failure that counts against the provider.
  unfoldable pub after_failure :
      String → String → TaskResult → FailureClass × Option ℕ → Services → Services
  after_failure provider actor r (class, delay) v = record v {
    circuits = registry_failure now actor v.circuits;
    health =
        record_provider_failure now provider class (quota_delay class delay) (some r.failure_text)
          v.health;
  }

  -- The failure branch up to the writes to the task. `ranked` are the capable actors.
  unfoldable pub failed_outcome :
      String → String → TaskResult → FailureClass × Option ℕ → Services → Services × Outcome
  unfolding after_failure
  failed_outcome provider actor r (class, delay) v =
      let (v'', alternative) =
        find_alternative_actor low_tokens low_requests now (actor ∷ []) ranked
          (after_failure provider actor r (class, delay) v) in
      if is_provider_failure class then (v'', outcome_of class alternative) else (v, fail)

  -- The branches on the status of the result.
  unfoldable pub decided : String → String → TaskResult → Services → Services × Outcome
  unfolding failed_outcome
  decided provider actor r v =
      if r.is_success
      then (
        record v {
          circuits = registry_success now actor v.circuits;
          health = record_provider_success now provider v.health;
        },
        success,
      )
      else failed_outcome provider actor r
          (classify r.message r.status_code r.message_reset r.header_delay) v

  -- The registries after a result, and what becomes of the task.
  unfoldable pub outcome :
      Option String → String → String → TaskResult → Services → Result (Services × Outcome)
  unfolding record_telemetry decided
  outcome job provider actor r v =
      record_telemetry job provider actor r.observed r.telemetry v >>= λ v'.
      ok (decided provider actor r v')

-- `task.attempt = max(0, task.attempt - 1)` and READY
abbrev pub give_back : TaskNode → TaskNode
give_back t = record t { attempt = t.attempt - 1; status = ready }

abbrev pub hand_over : String → TaskNode → TaskNode
hand_over actor t = record t { assigned_actor = some actor; status = ready }

-- The writes to the task, which the graph holds.
unfoldable pub apply_outcome : ℕ → String → TaskResult → Outcome → TaskGraph → Result TaskGraph
unfolding update_task mark_success mark_failure
apply_outcome now id r success = mark_success now id r.artifacts r.result_metadata
apply_outcome now id r wait = update_task id give_back
apply_outcome now id r fail = mark_failure now id r.failure true
apply_outcome now id r (reroute actor) = update_task id (hand_over actor)

module _ (low_tokens low_requests : ℕ → ℕ → Bool) (now : ℕ) (ranked : List String) where
  -- `_execute_task_wrapper` from the result of `execute` on. What is raised before the task is
  -- written to leaves the graph, and the task RUNNING.
  unfoldable pub settle :
      Option String
      → String
      → String
      → String
      → TaskResult
      → Services
      → TaskGraph
      → Services × Result TaskGraph
  unfolding outcome apply_outcome
  settle job provider actor id r v g =
      elim (outcome low_tokens low_requests now ranked job provider actor r v) [
        | err x ↦ (v, err x)
        | ok s ↦ (s.0, apply_outcome now id r s.1 g)
      ]

abbrev cancellable : Option TaskNode → Bool
cancellable none = false
cancellable (some t) = is_running t.status || is_ready t.status

-- The `except asyncio.CancelledError` branch.
unfoldable pub settle_cancelled : ℕ → String → TaskGraph → Result TaskGraph
unfolding mark_cancelled
settle_cancelled now id g =
    if cancellable (lookup id g.tasks)
    then mark_cancelled now id (some "Execution cancelled") g
    else ok g
