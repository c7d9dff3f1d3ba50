-- ===== src/Engine/Samples.antt =====
-- The theorems on the engine applied to a job of one task.
use hermes_lab.Prelude.{
  ℕ, ◌+◌, ◌≡◌, refl, Option, none, some, [], ◌∷◌, true, false, any, all, keep, elem, Result, ok,
  arith, eq_iff, length, ◌≤◌,
}
use hermes_lab.Limits.{default_limits}
use hermes_lab.Task.{text, TaskNode, succeeded}
use hermes_lab.Dict.{Dict, lookup, insert, modify}
use hermes_lab.TaskGraph.{keeps_status, add_task, mark_running, mark_blocked, update_task, start}
use hermes_lab.TaskGraph.Queries.{
  counts, has_runnable_tasks, count, find_ready_tasks, is_runnable, has_running_tasks,
  has_failed_tasks, is_stalled, is_all_completed, has_active_tasks,
}
use hermes_lab.CircuitBreaker.{registry_allow, get_breaker, new, allow_request, current}
use hermes_lab.Capacity
use hermes_lab.Capacity.{
  get_provider_for_actor, is_provider_available, get_provider_status, refreshed,
  check_soft_capacity, get_usage,
}
use hermes_lab.Capabilities.{
  actor_satisfies, get_actor_capabilities, find_actors, gather, is_eligible, ranked_of, cleaned,
  sort_ranked, insert_ranked, before,
}
use hermes_lab.JobState
use hermes_lab.JobState.{
  State, created, planning, executing, verifying, completed, blocked, JobRecord, transition_to,
  legal, enter, is_terminal_state,
}
use hermes_lab.Scheduler.Slots.{
  get_actor_concurrency_limit, acquire_actor, add_running, can_dispatch_more,
}
use hermes_lab.Scheduler.{usable, find_alternative_actor, load_allows, is_actor_available}
use hermes_lab.Scheduler.Reasons.{refuse, asks_elsewhere, rejection_text, budget_of}
use hermes_lab.Scheduler.Matching.{
  get_actor_rejection_reason, soft, candidates, alternative, matched_by, send, reroute_or_defer,
  when_unavailable, choose_other, when_available, match_assigned, keep_available, keep_healthy,
  reject_all,
}
use hermes_lab.Scheduler.Choosing.{
  lacking, explain, take_best, select, match_among, match_ranked, match_for, match_actor_for_task,
}
use hermes_lab.Scheduler.Rounds.{
  author_actors, target, prefer_independent, pass_over, decide, place, schedule_task, schedule_loop,
  schedule_ready_tasks,
}
use hermes_lab.Scheduler.Samples.{setting, throttled_services, idle, edit_task}
use hermes_lab.Engine.Defs.{
  Env, Engine, is_terminal, initialize_and_plan, add_initial, planned, transition_job,
  request_replan, replan_with,
}
use hermes_lab.Engine.Batch.{take_all}
use hermes_lab.Engine.Steps.{
  Input, Verification, passes, repairable, while_open, step_executing, check_graph, after_batch,
  wait_for_one, after_round, round_of, waits, replan_or_block, first_time,
}
use hermes_lab.Engine.Loop.{
  step, step_in, run, proceed, close, step_verifying, repair_cycle, add_recommended, plan_repair,
  add_default, resume_repair,
}
use hermes_lab.Engine.AtWork.{IsCounted, IsAtWork}
use hermes_lab.TaskGraph.Wellformed.{IsGraph}
use hermes_lab.Scheduler.Samples.{idle-IsLedger}
use hermes_lab.Engine.Raises.{Returned}
use hermes_lab.Engine.Returning.{step-Returned}
use hermes_lab.Projection.Payload.{to_items, of_items}
use hermes_lab.Scheduler.Rounds.{is_true}
use hermes_lab.Engine.Repairs.{
  History, history_of, recheck_node, recheck_fields, diverges, shrank, set_all,
}
use hermes_lab.Engine.Histories.{onward, falls, sent_back, history_of-recheck_node, sent_back-falls}
use hermes_lab.Engine.Runs.{run-IsCounted, run-completed, run-Ends, waited, Ends}

abbrev env : Env
env = record {
  setting = setting;
  limits = default_limits;
  planner = none;
  repairs_verdicts = false;
  show = λ n. "n";
  suffix = λ s. 1;
  starts = λ part whole. false;
  say = λ why. text "why";
}

abbrev job : JobRecord
job = record {
  job_id = "job";
  goal = "a goal";
  title = none;
  state = created;
  repository = none;
  branch = none;
  priority = "P1";
  created_at = 10;
  started_at = none;
  completed_at = none;
  current_phase = none;
  blocked_reason = none;
  failure_reason = none;
  replan_count = 0;
  repair_count = 0;
  assigned_agents = [];
  metadata = [];
}

abbrev start_engine : Engine
start_engine = record {
  job = job;
  graph = record { job_id = "job"; tasks = ("a", edit_task "a" none) ∷ [] };
  slots = idle.slots;
  services = throttled_services;
  active = [];
  discovery_triggered = [];
  fenced = false;
}

abbrev all_succeed : Dict TaskNode → Dict TaskNode
all_succeed [] = []
all_succeed ((k, t) ∷ d) = (k, record t { status = succeeded }) ∷ all_succeed d

-- Every execution succeeds, and the verifier says the same in every round.
abbrev always_says : Verification → ℕ → Input
always_says v n = record {
  now = 100 + n;
  wait = λ e. record {
    slots = idle.slots;
    services = e.services;
    graph = record e.graph { tasks = all_succeed e.graph.tasks };
    ended = [];
    still_active = [];
  };
  verify = λ e. ok v;
}

-- The state in which a job is returned, with its counts.
abbrev told : Option (Result Engine) → Option (State × ℕ × ℕ)
told (some (ok e)) = some (e.job.state, e.job.replan_count, e.job.repair_count)
told _ = none

abbrev or_start : Option (Result Engine) → Engine
or_start (some (ok e)) = e
or_start _ = start_engine

-- The task is planned, run and verified.
unfoldable final : Engine
unfolding run
final = or_start (run env (always_says passes) 10 11 0 0 start_engine)

final_returned : run env (always_says passes) 10 11 0 0 start_engine ≡ some (ok final)
unfolding final run step step_in proceed close initialize_and_plan add_initial planned
    transition_job transition_to legal enter is_terminal JobState.is_terminal is_terminal_state
    while_open step_executing round_of after_round wait_for_one take_all after_batch check_graph
    waits replan_or_block request_replan replan_with step_verifying repair_cycle add_recommended
    plan_repair add_default resume_repair add_task count has_running_tasks has_failed_tasks
    is_stalled is_all_completed has_active_tasks first_time schedule_ready_tasks schedule_loop
    schedule_task decide prefer_independent pass_over place target author_actors find_ready_tasks
    is_runnable mark_running mark_blocked update_task start modify acquire_actor add_running
    can_dispatch_more match_actor_for_task match_for match_ranked match_among match_assigned
    when_available when_unavailable reroute_or_defer choose_other send soft candidates alternative
    keep_available keep_healthy reject_all get_actor_rejection_reason select take_best explain
    refuse lacking matched_by asks_elsewhere rejection_text budget_of actor_satisfies
    get_actor_capabilities find_actors sort_ranked insert_ranked before gather is_eligible ranked_of
    cleaned load_allows get_actor_concurrency_limit find_alternative_actor usable elem any all keep
    lookup insert registry_allow get_breaker new allow_request current is_actor_available
    Capacity.is_actor_available get_provider_for_actor is_provider_available get_provider_status
    refreshed check_soft_capacity get_usage counts has_runnable_tasks keeps_status
final_returned = refl

passing_run : final.job.state ≡ completed
unfolding final run step step_in proceed close initialize_and_plan add_initial planned
    transition_job transition_to legal enter is_terminal JobState.is_terminal is_terminal_state
    while_open step_executing round_of after_round wait_for_one take_all after_batch check_graph
    waits replan_or_block request_replan replan_with step_verifying repair_cycle add_recommended
    plan_repair add_default resume_repair add_task count has_running_tasks has_failed_tasks
    is_stalled is_all_completed has_active_tasks first_time schedule_ready_tasks schedule_loop
    schedule_task decide prefer_independent pass_over place target author_actors find_ready_tasks
    is_runnable mark_running mark_blocked update_task start modify acquire_actor add_running
    can_dispatch_more match_actor_for_task match_for match_ranked match_among match_assigned
    when_available when_unavailable reroute_or_defer choose_other send soft candidates alternative
    keep_available keep_healthy reject_all get_actor_rejection_reason select take_best explain
    refuse lacking matched_by asks_elsewhere rejection_text budget_of actor_satisfies
    get_actor_capabilities find_actors sort_ranked insert_ranked before gather is_eligible ranked_of
    cleaned load_allows get_actor_concurrency_limit find_alternative_actor usable elem any all keep
    lookup insert registry_allow get_breaker new allow_request current is_actor_available
    Capacity.is_actor_available get_provider_for_actor is_provider_available get_provider_status
    refreshed check_soft_capacity get_usage counts has_runnable_tasks keeps_status
passing_run = refl

-- The repair has no capable actor: the job is blocked after one repair cycle.
repaired_run :
    told (run env (always_says (repairable [])) 10 8 0 0 start_engine) ≡ some (blocked, 0, 1)
unfolding run step step_in proceed close initialize_and_plan add_initial planned transition_job
    transition_to legal enter is_terminal JobState.is_terminal is_terminal_state while_open
    step_executing round_of after_round wait_for_one take_all after_batch check_graph waits
    replan_or_block request_replan replan_with step_verifying repair_cycle add_recommended
    plan_repair add_default resume_repair add_task count has_running_tasks has_failed_tasks
    is_stalled is_all_completed has_active_tasks first_time schedule_ready_tasks schedule_loop
    schedule_task decide prefer_independent pass_over place target author_actors find_ready_tasks
    is_runnable mark_running mark_blocked update_task start modify acquire_actor add_running
    can_dispatch_more match_actor_for_task match_for match_ranked match_among match_assigned
    when_available when_unavailable reroute_or_defer choose_other send soft candidates alternative
    keep_available keep_healthy reject_all get_actor_rejection_reason select take_best explain
    refuse lacking matched_by asks_elsewhere rejection_text budget_of actor_satisfies
    get_actor_capabilities find_actors sort_ranked insert_ranked before gather is_eligible ranked_of
    cleaned load_allows get_actor_concurrency_limit find_alternative_actor usable elem any all keep
    lookup insert registry_allow get_breaker new allow_request current is_actor_available
    Capacity.is_actor_available get_provider_for_actor is_provider_available get_provider_status
    refreshed check_soft_capacity get_usage counts has_runnable_tasks keeps_status
repaired_run = refl

start-IsAtWork : IsAtWork default_limits job
start-IsAtWork = record {
  counted = record { replans = omega arith; repairs = omega arith };
  unjudged = refl;
}

run-IsCounted_example : IsCounted default_limits final.job
run-IsCounted_example =
    run-IsCounted env (always_says passes) 10 11 start_engine final start-IsAtWork final_returned

run-completed_example :
    (is_all_completed final.graph ≡ true)
    × ((n : ℕ) × (e0 : Engine) × ((always_says passes n).verify e0 ≡ ok passes)
        × (e0.graph ≡ final.graph))
run-completed_example =
    run-completed env (always_says passes) 10 11 start_engine final start-IsAtWork final_returned
      passing_run

run-Ends_example :
    Ends env (always_says passes) 10 (run env (always_says passes) 10 11 0 0 start_engine)
run-Ends_example = run-Ends env (always_says passes) 10 11 start_engine (
    unfold waited run step step_in proceed close initialize_and_plan add_initial planned
      transition_job transition_to legal enter is_terminal JobState.is_terminal is_terminal_state
      while_open step_executing round_of after_round wait_for_one take_all after_batch check_graph
      waits replan_or_block request_replan replan_with step_verifying repair_cycle add_recommended
      plan_repair add_default resume_repair add_task count has_running_tasks has_failed_tasks
      is_stalled is_all_completed has_active_tasks first_time schedule_ready_tasks schedule_loop
      schedule_task decide prefer_independent pass_over place target author_actors find_ready_tasks
      is_runnable mark_running mark_blocked update_task start modify acquire_actor add_running
      can_dispatch_more match_actor_for_task match_for match_ranked match_among match_assigned
      when_available when_unavailable reroute_or_defer choose_other send soft candidates alternative
      keep_available keep_healthy reject_all get_actor_rejection_reason select take_best explain
      refuse lacking matched_by asks_elsewhere rejection_text budget_of actor_satisfies
      get_actor_capabilities find_actors sort_ranked insert_ranked before gather is_eligible
      ranked_of cleaned load_allows get_actor_concurrency_limit find_alternative_actor usable elem
      any all keep lookup insert registry_allow get_breaker new allow_request current
      is_actor_available Capacity.is_actor_available get_provider_for_actor is_provider_available
      get_provider_status refreshed check_soft_capacity get_usage counts has_runnable_tasks
      keeps_status in
    omega arith)

start-IsGraph : IsGraph start_engine.graph
unfolding lookup
start-IsGraph = record { unique = (refl, tt); named = λ k n e. ground (arith, e, eq_iff "a" k) }

step-Returned_example : Returned (step env (always_says passes 0) start_engine)
step-Returned_example = step-Returned env (always_says passes 0) tt [] start_engine (record {
  own = refl;
  graph = start-IsGraph;
  ledger = idle-IsLedger;
  executions = λ e. tt;
  verifier = tt;
})

abbrev check : TaskNode
check = edit_task "check" none

abbrev first_history : History
first_history = record { root = "check"; counts = []; cycle = 0; is_recheck = false }

history_of-recheck_node_example :
    history_of env 100 (recheck_node env 100 "job" check first_history (text "bug" ∷ []))
    ≡ onward env 100 first_history 1
history_of-recheck_node_example =
    history_of-recheck_node env 100 "job" check first_history (text "bug" ∷ [])
      (unfold is_true in refl)

sent_back-falls_example :
    (falls env 100 2 ((text "bug" ∷ []) ∷ []) ≡ true)
    × (length ((text "bug" ∷ text "gap" ∷ []) ∷ (text "bug" ∷ []) ∷ []) ≤ 5)
sent_back-falls_example =
    sent_back-falls env 100 "job" check (text "bug" ∷ text "gap" ∷ []) ((text "bug" ∷ []) ∷ [])
      (unfold is_true lookup in refl) (unfold is_true in refl)
      (unfold sent_back history_of diverges shrank recheck_node recheck_fields set_all insert lookup
          is_true to_items of_items elem in
        refl)
