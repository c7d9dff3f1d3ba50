-- ===== src/Scheduler/Routing.antt =====
-- runtime/routing.py: `ReroutePolicy.find_alternative_actor`, and the availability test of
-- runtime/scheduler.py. Both change the registries they ask: a breaker counts its probes and a
-- provider's status may reset.
use hermes_lab.Prelude.{
  ℕ, String, Option, none, some, List, [], ◌∷◌, Bool, false, not, leb, if◌then◌else◌, elem,
}
use hermes_lab.Dict.{lookup}
use hermes_lab.CircuitBreaker.{CircuitBreakerRegistry, registry_allow}
use hermes_lab.Capacity
use hermes_lab.Capacity.{Health, Usages, check_soft_capacity}
use hermes_lab.Scheduler.Slots.{Slots, get_load, get_actor_concurrency_limit}

-- The registries that the scheduler and the policy share.
pub record Services : Type 0 where
  pub circuits : CircuitBreakerRegistry
  pub health : Health
  pub usages : Usages

-- The load test of `is_actor_available`.
unfoldable pub load_allows : String → Slots → Bool
unfolding get_actor_concurrency_limit
load_allows actor s =
    not (leb (get_actor_concurrency_limit actor s) (get_load 0 (lookup actor s.busy_actors)))

unfoldable pub is_actor_available : ℕ → String → Slots → Services → Services × Bool
unfolding load_allows
is_actor_available now actor s v =
    if load_allows actor s
    then (let (c, allowed) = registry_allow now actor v.circuits in
        let v' = record v { circuits = c } in
        let (h, available) = Capacity.is_actor_available now actor v.health in
        if allowed then (record v' { health = h }, available) else (v', false))
    else (v, false)

module _ (low_tokens low_requests : ℕ → ℕ → Bool) (now : ℕ) where
  -- The tests on one candidate: its breaker, its provider, its soft capacity.
  unfoldable pub usable : String → Services → Services × Bool
  usable actor v =
      let (c, allowed) = registry_allow now actor v.circuits in
      let v' = record v { circuits = c } in
      let (h, available) = Capacity.is_actor_available now actor v.health in
      let (h', soft) = check_soft_capacity low_tokens low_requests now actor none v.usages h in
      if not allowed
      then (v', false)
      else if not available
      then (record v' { health = h }, false)
      else (record v' { health = h' }, soft)

  -- The loop over the ranked candidates, of which `find_actors` gives the ids.
  unfoldable pub find_alternative_actor :
      List String → List String → Services → Services × Option String
  find_alternative_actor excluded [] v = (v, none)
  find_alternative_actor excluded (actor ∷ ranked) v =
      let (v', healthy) = usable actor v in
      let later = find_alternative_actor excluded ranked v' in
      let without = find_alternative_actor excluded ranked v in
      if elem actor excluded then without else if healthy then (v', some actor) else later
