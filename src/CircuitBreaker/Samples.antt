-- ===== src/CircuitBreaker/Samples.antt =====
-- The theorems on breakers applied to a breaker with the default config.
use hermes_lab.Prelude.{
  eq_iff, String, ◌≡◌, ◌≢◌, refl, none, some, List, [], ◌∷◌, true, false, not, all, arith,
}
use hermes_lab.Dict.{lookup}
use hermes_lab.CircuitBreaker.Defs.{
  Config, Breaker, CircuitState, closed, half_open, new, allow_request, record_failure,
}
use hermes_lab.CircuitBreaker.Registry.{CircuitBreakerRegistry, Entry, config_of, registry_trip}
use hermes_lab.CircuitBreaker.Cooldown.{Use, ask, fail, clear, trip, uses, failures, failures_exact}
use hermes_lab.CircuitBreaker.Probes.{
  IsSound, keeps_to, uses-IsSound, answers, half_open_starves, trip-shares-cooldown,
}

abbrev config : Config
config = record { failure_threshold = 3; cooldown = 30; half_open_success_threshold = 1 }

abbrev breaker : CircuitState → Breaker
breaker state = record {
  state = state;
  consecutive_failures = 0;
  consecutive_successes = 0;
  last_state_change = 100;
  opened_at = some 100;
  probes_in_flight = 1;
}

abbrev history : List Use
history = fail 101 ∷ trip 103 (some 5) ∷ ask 105 ∷ fail 110 ∷ clear 112 ∷ []

failures_exact_example :
    ((failures (95 ∷ 98 ∷ []) config (new 90)).state ≡ closed)
    × ((allow_request 129 config
          (uses
            (ask 110 ∷ [])
            (config, record_failure 100 config (failures (95 ∷ 98 ∷ []) config (new 90)))).1).1
        ≡ false)
failures_exact_example =
    failures_exact (95 ∷ 98 ∷ []) 100 (ask 110 ∷ []) 129 config (new 90) (unfold new in refl)
      (unfold new in refl) (omega arith, tt) (omega arith)

uses-IsSound_example :
    IsSound (uses history (config, new 90)).0 (uses history (config, new 90)).1
    × (keeps_to history (config, new 90) ≡ true)
uses-IsSound_example = uses-IsSound history config 90 (omega arith) (omega arith)

half_open_starves_example : all not (answers config (200 ∷ 5000 ∷ []) (breaker half_open)) ≡ true
half_open_starves_example =
    half_open_starves config (200 ∷ 5000 ∷ []) (breaker half_open) refl (omega arith)

abbrev entry : Entry
entry = record { config = none; breaker = breaker closed }

abbrev registry : CircuitBreakerRegistry
registry = record { default_config = config; breakers = ("a", entry) ∷ ("b", entry) ∷ [] }

a-b : ◌≢◌ {A = String} "a" "b"
a-b e = cc ((eq_iff "a" "b").1 e)

trip-shares-cooldown_example :
    let r' = registry_trip 100 "a" (some 900) registry in
    (lookup "b" r'.breakers ≡ some entry) × ((config_of r' entry).cooldown ≡ 900)
trip-shares-cooldown_example =
    trip-shares-cooldown 100 "a" "b" 900 registry entry entry (omega arith) a-b
      (unfold lookup in refl) refl (unfold lookup in refl) refl
