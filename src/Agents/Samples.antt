-- ===== src/Agents/Samples.antt =====
-- The theorem on what an agent is shown as, applied to two phases of one agent that overlap.
use hermes_lab.Prelude.{
  String, ◌≡◌, ◌==◌, if◌then◌else◌, take, false, refl, none, some, List, [], ◌∷◌,
}
use hermes_lab.Dict.{lookup, insert, remove}
use hermes_lab.Agents.Defs.{
  AgentEvent, Kind, phase_started, phase_completed, agent_finished, normalize_agent_id, running,
  apply_event, apply_kind, apply_phase, set_agent_status, after_completed, phase_key,
}
use hermes_lab.Agents.Phases.{status_of, apply_events}
use hermes_lab.Agents.Running.{Shows, nobody, apply_events-Shows}
use hermes_lab.Agents.Tracks.{Phase, runs_after}

abbrev same_text : String → String
same_text s = s

abbrev event : Kind → String → AgentEvent
event kind order = record {
  source_id = "claude";
  kind = kind;
  detail = "";
  job_id = some "job";
  meta_job = none;
  meta_order = some order;
  meta_phase = none;
  meta_task = none;
}

abbrev events : List AgentEvent
events =
    event phase_started "1"
    ∷ event phase_started "2"
    ∷ event phase_completed "1"
    ∷ event agent_finished "2"
    ∷ []

abbrev read : String → Phase
read s = if s == "job:1" then ("job", "1") else ("job", "2")

apply_events-Shows_example :
    Shows
      (status_of "claude" (apply_events same_text same_text events nobody))
      (runs_after same_text same_text read "claude" events (λ p. false))
unfolding normalize_agent_id
apply_events-Shows_example =
    apply_events-Shows same_text same_text read "claude" events
      (refl, refl, (refl, refl, (refl, refl, (refl, refl, tt)))) (refl, (refl, (refl, (refl, tt))))

claude_runs : status_of "claude" (apply_events same_text same_text (take 3 events) nobody) ≡ running
unfolding apply_events apply_event apply_kind apply_phase set_agent_status normalize_agent_id
    after_completed phase_key insert remove lookup
claude_runs = refl
