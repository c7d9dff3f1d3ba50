-- ===== src/CircuitBreaker/Defs.antt =====
-- runtime/circuit_breaker.py: `CircuitBreaker`. Times are counts of microseconds, the resolution of
-- `datetime`; a method reads the clock once here. The callback and the log are not modelled.
use hermes_lab.Prelude.{ℕ, ◌+◌, Option, none, some, Bool, true, false, if◌then◌else◌, leb, ltb}

pub data CircuitState : Type 0 where
  closed open_state half_open : CircuitState

-- CircuitBreakerConfig, the cooldown in microseconds
pub record Config : Type 0 where
  pub failure_threshold : ℕ
  pub cooldown : ℕ
  pub half_open_success_threshold : ℕ

pub record Breaker : Type 0 where
  pub state : CircuitState
  pub consecutive_failures : ℕ
  pub consecutive_successes : ℕ
  pub last_state_change : ℕ
  pub opened_at : Option ℕ
  pub probes_in_flight : ℕ

-- __init__
unfoldable pub new : ℕ → Breaker
new now = record {
  state = closed;
  consecutive_failures = 0;
  consecutive_successes = 0;
  last_state_change = now;
  opened_at = none;
  probes_in_flight = 0;
}

-- The writes of `_transition_to` to a state other than the one before.
abbrev enter : ℕ → CircuitState → Breaker → Breaker
enter now open_state b = record b {
  state = open_state;
  last_state_change = now;
  opened_at = some now;
  consecutive_successes = 0;
}
enter now closed b = record b {
  state = closed;
  last_state_change = now;
  consecutive_failures = 0;
  consecutive_successes = 0;
  opened_at = none;
  probes_in_flight = 0;
}
enter now half_open b = record b {
  state = half_open;
  last_state_change = now;
  probes_in_flight = 0;
  consecutive_successes = 0;
}

abbrev same : CircuitState → CircuitState → Bool
same closed closed = true
same open_state open_state = true
same half_open half_open = true
same _ _ = false

unfoldable pub transition_to : ℕ → CircuitState → Breaker → Breaker
transition_to now target b = if same b.state target then b else enter now target b

-- `self._opened_at + cooldown <= now`, false where there is no such time
abbrev cooled : ℕ → Config → Option ℕ → Bool
cooled now c none = false
cooled now c (some t) = leb (t + c.cooldown) now

abbrev is_open : CircuitState → Bool
is_open open_state = true
is_open _ = false

-- The property `state`, which moves an open breaker on when its cooldown is over.
unfoldable pub current : ℕ → Config → Breaker → Breaker
unfolding transition_to
current now c b =
    if is_open b.state
    then if cooled now c b.opened_at then transition_to now half_open b else b
    else b

allow_in : CircuitState → Config → Breaker → Breaker × Bool
allow_in closed c b = (b, true)
allow_in half_open c b =
    if ltb b.probes_in_flight c.half_open_success_threshold
    then (record b { probes_in_flight = b.probes_in_flight + 1 }, true)
    else (b, false)
allow_in open_state c b = (b, false)

unfoldable pub allow_request : ℕ → Config → Breaker → Breaker × Bool
unfolding current allow_in
allow_request now c b = let b' = current now c b in allow_in b'.state c b'

success_in : CircuitState → ℕ → Config → Breaker → Breaker
unfolding transition_to
success_in half_open now c b =
    let b' = record b { consecutive_successes = b.consecutive_successes + 1 } in
    if leb c.half_open_success_threshold b'.consecutive_successes
    then transition_to now closed b'
    else b'
success_in closed now c b = record b { consecutive_failures = 0 }
success_in open_state now c b = b

unfoldable pub record_success : ℕ → Config → Breaker → Breaker
unfolding current success_in
record_success now c b = let b' = current now c b in success_in b'.state now c b'

failure_in : CircuitState → ℕ → Config → Breaker → Breaker
unfolding transition_to
failure_in half_open now c b = transition_to now open_state b
failure_in closed now c b =
    let b' = record b { consecutive_failures = b.consecutive_failures + 1 } in
    if leb c.failure_threshold b'.consecutive_failures then transition_to now open_state b' else b'
failure_in open_state now c b = b

unfoldable pub record_failure : ℕ → Config → Breaker → Breaker
unfolding current failure_in
record_failure now c b = let b' = current now c b in failure_in b'.state now c b'

-- `trip_open`: the new config, which other breakers may hold too, and the new breaker. An absent
-- cooldown and one of 0 leave the config alone.
unfoldable pub tripped : ℕ → Option ℕ → Config → Breaker → Config × Breaker
unfolding transition_to
tripped now none c b = (c, transition_to now open_state b)
tripped now (some cooldown) c b =
    (if ltb 0 cooldown then record c { cooldown = cooldown } else c, transition_to now open_state b)

unfoldable pub reset : ℕ → Breaker → Breaker
unfolding transition_to
reset now b = transition_to now closed b
