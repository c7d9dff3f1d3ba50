-- ===== src/Scheduler/Samples.antt =====
-- The theorems on the scheduler applied to two actors and one task.
use hermes_lab.Prelude.{
  ℕ, ◌≡◌, refl, String, Option, none, some, List, [], ◌∷◌, map, Bool, true, false, not, ◌==◌, ◌&&◌,
  leb, any, all, keep, elem, Result, ok, err, arith, eq_iff,
}
use hermes_lab.Dict.{Dict, lookup, insert, modify, has, values}
use hermes_lab.Task.{TaskNode, TaskStatus, ready, running, blocked}
use hermes_lab.TaskGraph.{TaskGraph, mark_running, mark_blocked, update_task, start}
use hermes_lab.TaskGraph.Queries.{find_ready_tasks, is_runnable}
use hermes_lab.TaskGraph.Wellformed.{IsGraph}
use hermes_lab.CircuitBreaker.{registry_allow, get_breaker, new, allow_request, current}
use hermes_lab.Capacity
use hermes_lab.Capacity.{
  throttled, get_provider_for_actor, is_provider_available, get_provider_status, refreshed,
  check_soft_capacity, get_usage,
}
use hermes_lab.Capabilities.{
  actor_satisfies, get_actor_capabilities, find_actors, gather, is_eligible, ranked_of, cleaned,
  sort_ranked, insert_ranked, before,
}
use hermes_lab.Scheduler.Slots.{
  get_actor_concurrency_limit, acquire_actor, add_running, can_dispatch_more,
}
use hermes_lab.Scheduler.Routing.{
  Services, usable, find_alternative_actor, load_allows, is_actor_available,
}
use hermes_lab.Scheduler.Settle.{TaskResult, counted, record_telemetry, settle}
use hermes_lab.Scheduler.Ledger.{Move, launch, end_of, Running, steps, IsLedger, steps-IsLedger}
use hermes_lab.Scheduler.Outcomes.{After, class_of, other_actor, settle-After}
use hermes_lab.Scheduler.Reasons.{Setting, refuse, asks_elsewhere, rejection_text, budget_of}
use hermes_lab.Scheduler.Matching.{
  get_actor_rejection_reason, soft, candidates, alternative, matched_by, send, reroute_or_defer,
  when_unavailable, choose_other, when_available, match_assigned, keep_available, keep_healthy,
  reject_all,
}
use hermes_lab.Scheduler.Choosing.{
  lacking, explain, take_best, select, match_among, match_ranked, match_for, match_actor_for_task,
}
use hermes_lab.Scheduler.Rounds.{
  Launch, Round, author_actors, target, prefer_independent, pass_over, decide, place, schedule_task,
  schedule_loop, schedule_ready_tasks,
}
use hermes_lab.Scheduler.Candidates.{capable_choice}
use hermes_lab.Scheduler.Capable.{match_actor_for_task-capable}
use hermes_lab.Scheduler.Refusals.{search_for, match_actor_for_task-nobody}
use hermes_lab.Scheduler.Load.{within_load, match_actor_for_task-within_load}
use hermes_lab.Scheduler.Launches.{Scheduled, schedule_ready_tasks-Scheduled}

abbrev pub idle : Running
idle = record {
  slots = record {
    running_tasks = [];
    busy_actors = [];
    actor_concurrency_limits = [];
    default_actor_concurrency = 1;
  };
  flight = [];
}

pub idle-IsLedger : IsLedger 4 idle
unfolding lookup
idle-IsLedger = record {
  tasks_in_flight = refl;
  one_each = tt;
  loads = λ a. refl;
  within = omega arith;
}

abbrev moves : List Move
moves = launch "a" "claude" ∷ launch "b" "gemini" ∷ end_of "a" ∷ launch "c" "claude" ∷ []

steps-IsLedger_example : IsLedger 4 (steps 4 moves idle)
steps-IsLedger_example = steps-IsLedger 4 moves idle idle-IsLedger

abbrev pub services : Services
services = record {
  circuits = record {
    default_config = record {
      failure_threshold = 3;
      cooldown = 60;
      half_open_success_threshold = 1;
    };
    breakers = [];
  };
  health = record {
    provider_status = [];
    provider_reset_at = [];
    provider_status_reason = [];
    actor_provider_map = [];
    provider_success_count = [];
    provider_failure_count = [];
    provider_failure_breakdown = [];
    provider_throttling_count = [];
  };
  usages = record { usage_snapshots = []; job_token_usage = [] };
}

abbrev below : ℕ → ℕ → Bool
below left limit = not (leb 1 left)

-- The registries after `gemini` was asked.
abbrev asked : Services
asked = (usable below below 100 "gemini" services).0

find_gemini :
    find_alternative_actor below below 100 ("claude" ∷ []) ("claude" ∷ "gemini" ∷ []) services
    ≡ (asked, some "gemini")
unfolding find_alternative_actor usable elem lookup insert registry_allow get_breaker new
    allow_request current Capacity.is_actor_available get_provider_for_actor is_provider_available
    get_provider_status refreshed check_soft_capacity get_usage
find_gemini = refl

abbrev pub task : TaskNode
task = record {
  task_id = "a";
  job_id = "job";
  description = "a task";
  status = ready;
  dependencies = [];
  required_capabilities = [];
  assigned_actor = none;
  parent_task_id = none;
  created_at = 10;
  started_at = none;
  completed_at = none;
  attempt = 0;
  max_attempts = 2;
  metadata = [];
  artifact_refs = [];
  error = none;
  superseded_by = none;
  supersede_reason = none;
}

abbrev graph : TaskGraph
graph = record { job_id = "job"; tasks = ("a", task) ∷ [] }

abbrev result : TaskResult
result = record {
  is_success = false;
  artifacts = [];
  result_metadata = [];
  failure = none;
  failure_text = "rate limit";
  message = "rate limit";
  status_code = some 429;
  header_delay = some 60;
  message_reset = none;
  telemetry = ok (counted 0 0 0);
  observed = "2026-01-01T00:00:00Z";
}

settle-After_example :
    (g1 g2 : TaskGraph) × (t : TaskNode) × (v' : Services) × (mark_running 100 "a"
        (some "claude")
        graph
      ≡ ok g1)
    × ((settle below below 110 [] (some "job") "claude" "claude" "a" result services g1).1 ≡ ok g2)
    × (lookup "a" g2.tasks ≡ some t)
    × (record_telemetry (some "job") "claude" "claude" result.observed result.telemetry services
        ≡ ok v')
    × After result.is_success
        (class_of below below 100 110 [] result)
        (other_actor below below 100 110 [] "claude" "claude" result v')
        "claude"
        task
        t
settle-After_example =
    settle-After below below 100 110 [] (some "job") "claude" "claude" "a" result (counted 0 0 0)
      services graph task (unfold lookup in refl) refl refl

-- A registry of two actors, the first with a throttled provider.
abbrev pub setting : Setting
setting = record {
  registry = record {
    actors =
        ("codex", record { id = "codex"; capabilities = "edit" ∷ []; dict_text = none })
        ∷ (
          "gemini",
          record { id = "gemini"; capabilities = "edit" ∷ "test" ∷ []; dict_text = none },
        )
        ∷ [];
  };
  defaults = [];
  strip = λ s. s;
  lower = λ s. s;
  within = λ part whole. part == "throttled";
  low_tokens = below;
  low_requests = below;
  limit = 4;
}

abbrev pub throttled_services : Services
throttled_services = record services {
  health = record services.health { provider_status = ("codex", throttled) ∷ [] };
}

abbrev pub edit_task : String → Option String → TaskNode
edit_task id actor = record task {
  task_id = id;
  required_capabilities = "edit" ∷ [];
  assigned_actor = actor;
}

abbrev flying_task : TaskNode
flying_task = record task { task_id = "fly"; required_capabilities = "fly" ∷ [] }

abbrev round_of : Dict TaskNode → Round
round_of tasks = record {
  slots = idle.slots;
  services = throttled_services;
  graph = record { job_id = "job"; tasks = tasks };
  launched = [];
}

abbrev free_tasks : Dict TaskNode
free_tasks = ("a", edit_task "a" none) ∷ ("fly", flying_task) ∷ ("b", edit_task "b" none) ∷ []

abbrev pinned_tasks : Dict TaskNode
pinned_tasks = ("a", edit_task "a" (some "codex")) ∷ ("b", edit_task "b" (some "codex")) ∷ []

-- Who got which task, and the statuses afterwards.
abbrev told : Result Round → List (String × String) × List TaskStatus
told (ok r) = (
  map (λ (l : Launch). (l.task.task_id, l.actor)) r.launched,
  map (λ (t : TaskNode). t.status) (values r.graph.tasks),
)
told (err e) = ([], [])

-- One actor is free: it gets the first task, the second waits, and the third is blocked.
free_tasks_run :
    told (schedule_ready_tasks setting 100 (round_of free_tasks))
    ≡ (("a", "gemini") ∷ [], running ∷ blocked ∷ ready ∷ [])
unfolding schedule_ready_tasks schedule_loop schedule_task decide prefer_independent pass_over place
    target author_actors find_ready_tasks is_runnable mark_running mark_blocked update_task start
    modify acquire_actor add_running can_dispatch_more match_actor_for_task match_for match_ranked
    match_among match_assigned when_available when_unavailable reroute_or_defer choose_other send
    soft candidates alternative keep_available keep_healthy reject_all get_actor_rejection_reason
    select take_best explain refuse lacking matched_by asks_elsewhere rejection_text budget_of
    actor_satisfies get_actor_capabilities find_actors sort_ranked insert_ranked before gather
    is_eligible ranked_of cleaned load_allows get_actor_concurrency_limit find_alternative_actor
    usable elem any all keep lookup insert registry_allow get_breaker new allow_request current
    is_actor_available Capacity.is_actor_available get_provider_for_actor is_provider_available
    get_provider_status refreshed check_soft_capacity get_usage
free_tasks_run = refl

-- Two tasks of an unavailable actor are both handed to the other one, which takes one at a time.
pinned_tasks_run :
    told (schedule_ready_tasks setting 100 (round_of pinned_tasks))
    ≡ (("a", "gemini") ∷ ("b", "gemini") ∷ [], running ∷ running ∷ [])
unfolding schedule_ready_tasks schedule_loop schedule_task decide prefer_independent pass_over place
    target author_actors find_ready_tasks is_runnable mark_running mark_blocked update_task start
    modify acquire_actor add_running can_dispatch_more match_actor_for_task match_for match_ranked
    match_among match_assigned when_available when_unavailable reroute_or_defer choose_other send
    soft candidates alternative keep_available keep_healthy reject_all get_actor_rejection_reason
    select take_best explain refuse lacking matched_by asks_elsewhere rejection_text budget_of
    actor_satisfies get_actor_capabilities find_actors sort_ranked insert_ranked before gather
    is_eligible ranked_of cleaned load_allows get_actor_concurrency_limit find_alternative_actor
    usable elem any all keep lookup insert registry_allow get_breaker new allow_request current
    is_actor_available Capacity.is_actor_available get_provider_for_actor is_provider_available
    get_provider_status refreshed check_soft_capacity get_usage
pinned_tasks_run = refl

free-IsGraph : IsGraph (round_of free_tasks).graph
unfolding lookup
free-IsGraph = record {
  unique = (refl, (refl, (refl, tt)));
  named = λ k n e. ground (arith, e, eq_iff "a" k, eq_iff "fly" k, eq_iff "b" k);
}

schedule_ready_tasks-Scheduled_example :
    Scheduled setting 100 [] free_tasks (schedule_ready_tasks setting 100 (round_of free_tasks))
schedule_ready_tasks-Scheduled_example =
    schedule_ready_tasks-Scheduled setting 100 [] (round_of free_tasks) free-IsGraph idle-IsLedger

match_actor_for_task-capable_example :
    capable_choice setting
      (edit_task "a" none)
      (match_actor_for_task setting 100 idle.slots
        (edit_task "a" none)
        []
        []
        throttled_services).1.actor
    ≡ true
match_actor_for_task-capable_example =
    match_actor_for_task-capable setting 100 idle.slots (edit_task "a" none) [] []
      throttled_services

match_actor_for_task-within_load_example :
    within_load setting 100 idle.slots
      (edit_task "a" none)
      (match_actor_for_task setting 100 idle.slots
        (edit_task "a" none)
        []
        []
        throttled_services).1.reason
      (match_actor_for_task setting 100 idle.slots
        (edit_task "a" none)
        []
        []
        throttled_services).1.actor
    ≡ true
match_actor_for_task-within_load_example =
    match_actor_for_task-within_load setting 100 idle.slots (edit_task "a" none) [] []
      throttled_services

match_actor_for_task-nobody_example :
    (has "gemini" setting.registry.actors
      && is_eligible setting.strip setting.defaults
          (search_for setting 100 idle.slots flying_task [] [])
          setting.registry
          "gemini")
    ≡ false
match_actor_for_task-nobody_example =
    match_actor_for_task-nobody setting 100 idle.slots flying_task [] [] throttled_services "gemini"
      (unfold match_actor_for_task match_for match_ranked match_among match_assigned when_available
          when_unavailable reroute_or_defer choose_other send soft candidates alternative
          keep_available keep_healthy reject_all get_actor_rejection_reason select take_best explain
          refuse lacking matched_by asks_elsewhere rejection_text budget_of actor_satisfies
          get_actor_capabilities find_actors sort_ranked insert_ranked before gather is_eligible
          ranked_of cleaned load_allows get_actor_concurrency_limit find_alternative_actor usable
          elem any all keep lookup insert registry_allow get_breaker new allow_request current
          is_actor_available Capacity.is_actor_available get_provider_for_actor
          is_provider_available get_provider_status refreshed check_soft_capacity get_usage in
        refl)
