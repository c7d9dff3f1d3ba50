-- ===== src/CircuitBreaker/Probes.antt =====
-- Probes of a half-open breaker, and recovery.
use hermes_lab.Prelude.{
  ℕ, is_some, zero, suc, ◌+◌, ◌≤◌, ◌<◌, ◌≡◌, ◌≢◌, refl, String, none, some, Bool, true, false, List,
  [], ◌∷◌, arith, eq_iff, all, not, ◌&&◌, ◌||◌,
}
use hermes_lab.Dict.{lookup}
use hermes_lab.Dict.Laws.{lookup-insert}
use hermes_lab.CircuitBreaker.Defs.{
  closed, open_state, half_open, Config, Breaker, new, transition_to, allow_request, record_success,
  record_failure, tripped, reset, CircuitState,
}
use hermes_lab.CircuitBreaker.Cooldown.{Use, ask, succeed, fail, clear, trip, after, uses}
use hermes_lab.CircuitBreaker.Registry.{
  Entry, CircuitBreakerRegistry, config_of, get_breaker, registry_trip,
}

-- What holds of a breaker between two calls.
pub record IsSound (c : Config) (b : Breaker) : Type 0 where
  pub probes : b.probes_in_flight ≤ c.half_open_success_threshold
  pub stamped : b.state ≡ open_state → is_some b.opened_at ≡ true
  pub unstamped : b.state ≡ closed → b.opened_at ≡ none
  pub below : b.state ≡ closed → b.consecutive_failures < c.failure_threshold
  pub probing : b.state ≡ half_open → b.consecutive_successes < c.half_open_success_threshold

abbrev is_closed : CircuitState → Bool
is_closed closed = true
is_closed _ = false

abbrev is_open : CircuitState → Bool
is_open open_state = true
is_open _ = false

-- What a use may make of the state before: only a success or a reset closes a breaker, and only a
-- failure or a trip opens one.
abbrev pub may_turn : Use → CircuitState → CircuitState → Bool
may_turn (ask t) s s' =
    (not (is_closed s) || is_closed s')
    && (not (is_closed s') || is_closed s)
    && (not (is_open s') || is_open s)
may_turn (succeed t) s s' = (not (is_closed s) || is_closed s') && (not (is_open s') || is_open s)
may_turn (fail t) s s' = is_open s' || (is_closed s && is_closed s')
may_turn (clear t) s s' = is_closed s'
may_turn (trip t cooldown) s s' = is_open s'

-- Every use in turn makes of the state what it may.
unfoldable pub keeps_to : List Use → Config × Breaker → Bool
keeps_to [] s = true
keeps_to (u ∷ us) s = may_turn u s.1.state (after u s).1.state && keeps_to us (after u s)

after-IsSound :
    (u : Use) (c : Config) (b : Breaker)
    → 0 < c.failure_threshold
    → 0 < c.half_open_success_threshold
    → IsSound c b
    → IsSound (after u (c, b)).0 (after u (c, b)).1
unfolding after allow_request record_success record_failure reset tripped
after-IsSound (ask t) c b p q h = ground arith
after-IsSound (succeed t) c b p q h = ground arith
after-IsSound (fail t) c b p q h = ground arith
after-IsSound (clear t) c b p q h = ground arith
after-IsSound (trip t none) c b p q h = ground arith
after-IsSound (trip t (some cooldown)) c b p q h = ground arith

after-keeps :
    (u : Use) (c : Config) (b : Breaker)
    → IsSound c b
    → may_turn u b.state (after u (c, b)).1.state ≡ true
unfolding after allow_request record_success record_failure reset tripped
after-keeps (ask t) c b h = ground arith
after-keeps (succeed t) c b h = ground arith
after-keeps (fail t) c b h = ground arith
after-keeps (clear t) c b h = ground arith
after-keeps (trip t none) c b h = ground arith
after-keeps (trip t (some cooldown)) c b h = ground arith

-- No use changes the thresholds.
after_thresholds :
    (u : Use) (c : Config) (b : Breaker)
    → ((after u (c, b)).0.failure_threshold ≡ c.failure_threshold)
      × ((after u (c, b)).0.half_open_success_threshold ≡ c.half_open_success_threshold)
unfolding after tripped
after_thresholds (ask t) c b = (refl, refl)
after_thresholds (succeed t) c b = (refl, refl)
after_thresholds (fail t) c b = (refl, refl)
after_thresholds (clear t) c b = (refl, refl)
after_thresholds (trip t none) c b = (refl, refl)
after_thresholds (trip t (some cooldown)) c b = (ground arith, ground arith)

-- The answers to requests made at the given times.
unfoldable pub answers : Config → List ℕ → Breaker → List Bool
answers c [] b = []
answers c (t ∷ ts) b = let (b', answer) = allow_request t c b in answer ∷ answers c ts b'

refused :
    (c : Config) (t : ℕ) (b : Breaker)
    → b.state ≡ half_open
    → c.half_open_success_threshold ≤ b.probes_in_flight
    → allow_request t c b ≡ (b, false)
unfolding allow_request
refused c t b s h = ground arith

-- Once a half-open breaker has handed out its probes, it refuses every further request for good,
-- at whatever times they come, until an outcome is recorded: no cooldown gives a probe back.
pub half_open_starves :
    (c : Config) (ts : List ℕ) (b : Breaker)
    → b.state ≡ half_open
    → c.half_open_success_threshold ≤ b.probes_in_flight
    → all not (answers c ts b) ≡ true
unfolding answers all
half_open_starves c [] b s h = refl
half_open_starves c (t ∷ ts) b s h = rw (refused c t b s h) (half_open_starves c ts b s h)

uses-IsSound-from :
    (us : List Use) (c : Config) (b : Breaker)
    → 0 < c.failure_threshold
    → 0 < c.half_open_success_threshold
    → IsSound c b
    → IsSound (uses us (c, b)).0 (uses us (c, b)).1 × (keeps_to us (c, b) ≡ true)
unfolding uses keeps_to
uses-IsSound-from [] c b p q h = (h, refl)
uses-IsSound-from (u ∷ us) c b p q h =
    let same = after_thresholds u c b in
    let rest =
      uses-IsSound-from us (after u (c, b)).0 (after u (c, b)).1 (omega (arith, p, same.0))
        (omega (arith, q, same.1)) (after-IsSound u c b p q h) in
    (rest.0, ground (arith, after-keeps u c b h, rest.1))

-- With positive thresholds, whatever requests, outcomes, trips and resets a new breaker goes
-- through, at whatever times: it never has more probes out than its threshold, it has an opening
-- time whenever it is open and none when it is closed, and it is never closed with as many failures
-- in a row as open it; and in every use only a success or a reset closes it, and only a failure or a
-- trip opens it.
pub uses-IsSound :
    (us : List Use) (c : Config) (now : ℕ)
    → 0 < c.failure_threshold
    → 0 < c.half_open_success_threshold
    → IsSound (uses us (c, new now)).0 (uses us (c, new now)).1 × (keeps_to us (c, new now) ≡ true)
uses-IsSound us c now p q = uses-IsSound-from us c (new now) p q (
    unfold new in
    record {
      probes = omega arith;
      stamped = λ e. absurd (cc);
      unstamped = λ e. refl;
      below = λ e. p;
      probing = λ e. absurd (cc);
    })

-- `k` successes, at the same time.
unfoldable pub successes : ℕ → ℕ → Config → Breaker → Breaker
successes zero now c b = b
successes (suc k) now c b = successes k now c (record_success now c b)

successes_close :
    (k now : ℕ) (c : Config) (b : Breaker)
    → b.state ≡ half_open
    → b.consecutive_successes + suc k ≡ c.half_open_success_threshold
    → (successes (suc k) now c b).state ≡ closed
unfolding successes record_success
successes_close zero now c b s h = ground arith
successes_close (suc k) now c b s h =
    successes_close k now c (record_success now c b) (ground arith) (ground arith)

-- An open breaker whose cooldown is over admits a request, and as many successes as the half-open
-- threshold asks for close it.
pub open_recovers :
    (k now : ℕ) (c : Config) (b : Breaker) (t : ℕ)
    → b.state ≡ open_state
    → b.opened_at ≡ some t
    → t + c.cooldown ≤ now
    → c.half_open_success_threshold ≡ suc k
    → ((allow_request now c b).1 ≡ true)
      × ((successes (suc k) now c (allow_request now c b).0).state ≡ closed)
open_recovers k now c b t s o late enough = (
  unfold allow_request in ground arith,
  successes_close k now c (allow_request now c b).0 (unfold allow_request in ground arith)
      (unfold allow_request in ground arith),
)

-- Tripping one breaker that uses the registry's default config, with a cooldown, changes the
-- cooldown of every other breaker that uses it.
pub trip-shares-cooldown :
    (now : ℕ) (id other : String) (cooldown : ℕ) (r : CircuitBreakerRegistry) (e f : Entry)
    → 0 < cooldown
    → id ≢ other
    → lookup id r.breakers ≡ some e
    → e.config ≡ none
    → lookup other r.breakers ≡ some f
    → f.config ≡ none
    → let r' = registry_trip now id (some cooldown) r in
      (lookup other r'.breakers ≡ some f) × ((config_of r' f).cooldown ≡ cooldown)
unfolding registry_trip tripped
trip-shares-cooldown now id other cooldown r e f pos ne at_id shared at_other shared' =
    let made : Entry = record { config = none; breaker = transition_to now open_state e.breaker } in
    (
      ground (arith, at_entry, lookup-insert id other made r.breakers, eq_iff id other),
      ground (arith, at_entry),
    )
  where
    at_entry : get_breaker now id none r ≡ e
    at_entry = unfold get_breaker in ground arith
