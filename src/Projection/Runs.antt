-- ===== src/Projection/Runs.antt =====
-- runtime/storage/projector.py: what each event of an agent's run, an observation or a verification
-- writes. The confidence of an observation is kept as the payload gives it.
use Prim.Native.String.{◌++◌}
use hermes_lab.Prelude.{ℕ, String, Option, none, some, []}
use mathlib.Core.List
use hermes_lab.Dict.{Dict, insert, modify}
use hermes_lab.Task.{Value, text}
use hermes_lab.Recovery.{AgentRun, run_running, run_succeeded, run_failed, run_cancelled, timed_out}
use hermes_lab.Projection.Payload.{
  Payload, Event, Python, get, get_true, get_text, get_number, get_items, get_fields, truth,
  or_else, or_default,
}
use hermes_lab.Projection.Jobs.{at, text_or, get_or, stamp_of}
use hermes_lab.Projection.Tasks.{task_id_of, actor_of}

pub record Observation : Type 0 where
  pub observation_id : String
  pub job_id : String
  pub kind : String
  pub content : String
  pub task_id : Option String
  pub actor_id : Option String
  pub confidence : Option Value
  pub created_at : ℕ
  pub metadata : Dict Value

-- The last verification: begun by a verifier, or the payload of its result.
pub data Verification : Type 0 where
  in_progress : String → Verification
  result : Payload → Verification

abbrev pub Runs : Type 0
Runs = Dict AgentRun

-- `payload.get("runId") or event.run_id`, "" where both are missing: no run is stored under it.
abbrev pub run_id_of : Event → String
unfolding get_text
run_id_of e = or_default (or_else (get_text "runId" e.payload) e.run_id) ""

abbrev pub text_default : Option String → Option String → String → String
text_default a b s = or_default (or_else a b) s

module _ (py : Python) where
  unfoldable pub run_of : String → Event → AgentRun
  unfolding get_text get_number get_fields
  run_of job e = record {
    run_id = or_default (or_else (get_text "runId" e.payload) e.run_id) ("run_" ++ e.event_id);
    job_id = job;
    task_id = task_id_of e;
    actor_id = or_default (actor_of e) "";
    status = run_running;
    attempt = or_default (get_number "attempt" e.payload) 1;
    started_at = at py e;
    finished_at = none;
    exit_reason = none;
    artifact_refs = [];
    error = none;
    delegation_decision = none;
    metadata = get_fields "metadata" e.payload;
  }

  unfoldable pub on_agent_started : String → Event → Runs → Runs
  unfolding run_of
  on_agent_started job e rs = let r = run_of job e in insert r.run_id r rs

  unfoldable pub on_agent_finished : Event → Runs → Runs
  unfolding get_text get_items
  on_agent_finished e = modify (run_id_of e) (λ r. record r {
    status = run_succeeded;
    finished_at = some (at py e);
    exit_reason = some (or_default (get_text "exitReason" e.payload) "succeeded");
    artifact_refs = List.◌++◌ r.artifact_refs (get_items "artifact_refs" e.payload);
  })

  unfoldable pub on_agent_failed : Event → Runs → Runs
  unfolding get get_text
  on_agent_failed e = modify (run_id_of e) (λ r. record r {
    status = run_failed;
    finished_at = some (at py e);
    error = get "error" e.payload;
    exit_reason = some (or_default (get_text "exitReason" e.payload) "failed");
  })

  abbrev pub timeout_text : Option Value → String
  timeout_text none = "Timed out"
  timeout_text (some v) = "Timed out after " ++ py.show v ++ "s"

  unfoldable pub on_agent_timed_out : Event → Runs → Runs
  unfolding get truth
  on_agent_timed_out e = modify (run_id_of e) (λ r. record r {
    status = timed_out;
    finished_at = some (at py e);
    error = some (text (timeout_text (get_true "timeoutSeconds" e.payload)));
    exit_reason = some "timeout";
  })

  unfoldable pub on_agent_cancelled : Event → Runs → Runs
  unfolding get truth get_text
  on_agent_cancelled e = modify (run_id_of e) (λ r. record r {
    status = run_cancelled;
    finished_at = some (at py e);
    exit_reason = some (or_default (get_text "reason" e.payload) "cancelled");
    error = some (or_default (get_true "error" e.payload) (text "cancelled"));
  })

  unfoldable pub observation_of : String → Event → Observation
  unfolding get get_text get_fields
  observation_of job e = record {
    observation_id =
        text_default
          (or_else (get_text "observation_id" e.payload) (get_text "observationId" e.payload))
          (get_text "id" e.payload) ("obs_" ++ e.event_id);
    job_id = job;
    kind = text_or (get_or "kind" (text "discovery") e.payload) "discovery";
    content = text_or (get_or "content" (text "") e.payload) "";
    task_id =
        or_else (or_else (get_text "task_id" e.payload) (get_text "taskId" e.payload)) e.task_id;
    actor_id =
        or_else (or_else (get_text "actor_id" e.payload) (get_text "actorId" e.payload)) e.actor_id;
    confidence = get "confidence" e.payload;
    created_at =
        stamp_of py e (or_else (get_text "created_at" e.payload) (get_text "createdAt" e.payload));
    metadata = get_fields "metadata" e.payload;
  }

  unfoldable pub on_observation : String → Event → Dict Observation → Dict Observation
  unfolding observation_of
  on_observation job e os = let o = observation_of job e in insert o.observation_id o os

-- `payload.get("verifierId") or "verifier"`
unfoldable pub on_verification_started : Event → Verification
unfolding get_text
on_verification_started e = in_progress (or_default (get_text "verifierId" e.payload) "verifier")
