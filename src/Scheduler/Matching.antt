-- ===== src/Scheduler/Matching.antt =====
-- runtime/scheduler.py: `get_actor_rejection_reason` and `match_actor_for_task`. Asking a breaker or a
-- provider may change it, so the registries are passed on from question to question, in the order
-- of the code; the explanation of a decision asks again.
use hermes_lab.Prelude.{
  ℕ, String, Option, none, some, List, [], ◌∷◌, map, Bool, true, not, if◌then◌else◌, truthy, keep,
  elem,
}
use hermes_lab.Dict.{Dict}
use hermes_lab.Task.{TaskNode}
use hermes_lab.CircuitBreaker.{registry_allow}
use hermes_lab.Capacity
use hermes_lab.Capacity.{get_provider_for_actor, get_provider_status, check_soft_capacity}
use hermes_lab.Capabilities.{Ranked, find_actors, get_actor_capabilities}
use hermes_lab.Scheduler.Slots.{Slots}
use hermes_lab.Scheduler.Routing.{Services, load_allows, is_actor_available, find_alternative_actor}
use hermes_lab.Scheduler.Reasons.{
  Rejection, at_capacity, circuit_open, unknown_rejection, provider_is, Reason, deferred, assigned,
  rerouted, proactive, Refusal, rejected, DispatchDecision, Setting, asks_elsewhere, budget_of,
  refuse,
}

module _ (set : Setting) (now : ℕ) (slots : Slots) where
  unfoldable pub get_actor_rejection_reason : String → Services → Services × Rejection
  unfolding load_allows registry_allow get_provider_status get_provider_for_actor
  get_actor_rejection_reason actor v =
      if not (load_allows actor slots)
      then (v, at_capacity)
      else (let (c, allowed) = registry_allow now actor v.circuits in
          let v' = record v { circuits = c } in
          let (h, free) = Capacity.is_actor_available now actor v.health in
          let p = get_provider_for_actor actor h in
          let (h', status) = get_provider_status now p h in
          if not allowed
          then (v', circuit_open)
          else if not free
          then (record v' { health = h' }, provider_is p status)
          else (record v' { health = h }, unknown_rejection))

  unfoldable pub soft : TaskNode → String → Services → Services × Bool
  unfolding check_soft_capacity budget_of
  soft t actor v =
      let (h, fine) =
        check_soft_capacity set.low_tokens set.low_requests now actor (budget_of t) v.usages
          v.health in
      (record v { health = h }, fine)

  unfoldable pub candidates : TaskNode → List String → List String → List Ranked
  unfolding find_actors
  candidates t preferred excluded =
      find_actors set.strip set.defaults
        (record {
          required = t.required_capabilities;
          preferred_actors = preferred;
          excluded = excluded;
          available = none;
        })
        set.registry

  -- `reroute_policy.find_alternative_actor`, with the actors that it excludes
  unfoldable pub alternative : TaskNode → List String → Services → Services × Option String
  unfolding candidates find_alternative_actor
  alternative t excluded v =
      find_alternative_actor set.low_tokens set.low_requests now excluded
        (map (λ (r : Ranked). r.actor_id) (candidates t [] excluded)) v

  unfoldable pub matched_by : TaskNode → String → List String
  unfolding keep elem get_actor_capabilities
  matched_by t actor =
      keep (λ c. elem c (get_actor_capabilities set.strip set.defaults actor set.registry))
        t.required_capabilities

  unfoldable pub send : TaskNode → Reason → String → DispatchDecision
  unfolding matched_by
  send t why actor = record {
    actor = some actor;
    dispatched = true;
    reason = why;
    matched = matched_by t actor;
    rejected_candidates = [];
  }

  unfoldable pub reroute_or_defer : TaskNode → Rejection → Option String → DispatchDecision
  unfolding send refuse
  reroute_or_defer t why none = refuse (deferred why) [] []
  reroute_or_defer t why (some other) = send t (rerouted why) other

  -- The actor of the task cannot take it now.
  unfoldable pub when_unavailable : TaskNode → String → Services → Services × DispatchDecision
  unfolding get_actor_rejection_reason asks_elsewhere alternative reroute_or_defer
  when_unavailable t actor v =
      let (v1, why) = get_actor_rejection_reason actor v in
      let (v2, other) = alternative t (actor ∷ []) v1 in
      if asks_elsewhere set why
      then (v2, reroute_or_defer t why (truthy other))
      else (v1, refuse (deferred why) [] [])

  unfoldable pub choose_other :
      TaskNode → String → Option String → Services → Services × DispatchDecision
  unfolding send soft
  choose_other t actor none v = (v, send t assigned actor)
  choose_other t actor (some other) v =
      let (v', fine) = soft t other v in
      (v', if fine then send t proactive other else send t assigned actor)

  -- The actor of the task is free; another one is taken where its own is short of capacity.
  unfoldable pub when_available : TaskNode → String → Services → Services × DispatchDecision
  unfolding soft alternative choose_other
  when_available t actor v =
      let (v1, fine) = soft t actor v in
      let (v2, other) = alternative t (actor ∷ []) v1 in
      if fine then (v1, send t assigned actor) else choose_other t actor (truthy other) v2

  unfoldable pub match_assigned : TaskNode → String → Services → Services × DispatchDecision
  unfolding is_actor_available when_unavailable when_available
  match_assigned t actor v =
      let (v', free) = is_actor_available now actor slots v in
      if free then when_available t actor v' else when_unavailable t actor v'

  -- The candidates that are available, and those among them with soft capacity.
  unfoldable pub keep_available : List Ranked → Services → Services × List Ranked
  unfolding is_actor_available
  keep_available [] v = (v, [])
  keep_available (r ∷ rs) v =
      let (v', free) = is_actor_available now r.actor_id slots v in
      let (w, rest) = keep_available rs v' in (w, if free then r ∷ rest else rest)

  unfoldable pub keep_healthy : TaskNode → List Ranked → Services → Services × List Ranked
  unfolding soft
  keep_healthy t [] v = (v, [])
  keep_healthy t (r ∷ rs) v =
      let (v', fine) = soft t r.actor_id v in
      let (w, rest) = keep_healthy t rs v' in (w, if fine then r ∷ rest else rest)

  unfoldable pub reject_all : List Ranked → Services → Services × Dict Refusal
  unfolding get_actor_rejection_reason
  reject_all [] v = (v, [])
  reject_all (r ∷ rs) v =
      let (v', why) = get_actor_rejection_reason r.actor_id v in
      let (w, rest) = reject_all rs v' in (w, (r.actor_id, rejected why) ∷ rest)
