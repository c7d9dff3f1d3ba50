-- ===== src/CircuitBreaker/Cooldown.antt =====
-- A breaker opens after `failure_threshold` failures in a row, and then stays shut for its cooldown.
use hermes_lab.Prelude.{length, Option, ℕ, ◌+◌, ◌<◌, ◌≡◌, refl, some, false, List, [], ◌∷◌, arith}
use hermes_lab.CircuitBreaker.Defs.{
  closed, open_state, Config, Breaker, allow_request, record_success, record_failure, reset,
  tripped,
}

-- What is done with a breaker, and when: a request, an outcome, `trip_open` and `reset`.
pub data Use : Type 0 where
  ask succeed fail clear : ℕ → Use
  trip : ℕ → Option ℕ → Use

-- A request or an outcome before a time.
abbrev pub IsBefore : ℕ → Use → Type 0
IsBefore t (ask u) = u < t
IsBefore t (succeed u) = u < t
IsBefore t (fail u) = u < t
IsBefore t (clear u) = ⊥
IsBefore t (trip u cooldown) = ⊥

-- The config, which a trip may change, and the breaker.
unfoldable pub after : Use → Config × Breaker → Config × Breaker
after (ask t) (c, b) = (c, (allow_request t c b).0)
after (succeed t) (c, b) = (c, record_success t c b)
after (fail t) (c, b) = (c, record_failure t c b)
after (clear t) (c, b) = (c, reset t b)
after (trip t cooldown) (c, b) = tripped t cooldown c b

unfoldable pub uses : List Use → Config × Breaker → Config × Breaker
uses [] s = s
uses (u ∷ us) s = uses us (after u s)

abbrev pub AllBefore : ℕ → List Use → Type 0
AllBefore t [] = Unit
AllBefore t (u ∷ us) = IsBefore t u × AllBefore t us

after_open :
    (c : Config) (u : Use) (b : Breaker) (t : ℕ)
    → b.state ≡ open_state
    → b.opened_at ≡ some t
    → IsBefore (t + c.cooldown) u
    → after u (c, b) ≡ (c, b)
unfolding after allow_request record_success record_failure
after_open c (ask now) b t s o h = ground arith
after_open c (succeed now) b t s o h = ground arith
after_open c (fail now) b t s o h = ground arith
after_open c (clear now) b t s o h = absurd h
after_open c (trip now cooldown) b t s o h = absurd h

uses_open :
    (c : Config) (us : List Use) (b : Breaker) (t : ℕ)
    → b.state ≡ open_state
    → b.opened_at ≡ some t
    → AllBefore (t + c.cooldown) us
    → uses us (c, b) ≡ (c, b)
unfolding uses
uses_open c [] b t s o h = refl
uses_open c (u ∷ us) b t s o h = rw (after_open c u b t s o h.0) (uses_open c us b t s o h.1)

-- A breaker that opened at `t` refuses every request before its cooldown is over, whatever
-- requests, successes and failures come first.
pub open_refuses :
    (c : Config) (us : List Use) (b : Breaker) (t now : ℕ)
    → b.state ≡ open_state
    → b.opened_at ≡ some t
    → AllBefore (t + c.cooldown) us
    → now < t + c.cooldown
    → (allow_request now c (uses us (c, b)).1).1 ≡ false
open_refuses c us b t now s o h late =
    rw (uses_open c us b t s o h) (unfold allow_request in ground arith)

-- Failures in a row, at the given times.
unfoldable pub failures : List ℕ → Config → Breaker → Breaker
failures [] c b = b
failures (t ∷ ts) c b = failures ts c (record_failure t c b)

failures_below :
    (ts : List ℕ) (c : Config) (b : Breaker)
    → b.state ≡ closed
    → b.consecutive_failures + length ts < c.failure_threshold
    → ((failures ts c b).state ≡ closed)
      × ((failures ts c b).consecutive_failures ≡ b.consecutive_failures + length ts)
unfolding failures record_failure
failures_below [] c b s h = (s, omega arith)
failures_below (t ∷ ts) c b s h =
    let rest =
      failures_below ts c (record_failure t c b) (ground (arith, h, s)) (ground (arith, h, s)) in
    (rest.0, ground (arith, rest.1, h, s))

failure_opens :
    (t : ℕ) (c : Config) (b : Breaker)
    → b.state ≡ closed
    → b.consecutive_failures + 1 ≡ c.failure_threshold
    → ((record_failure t c b).state ≡ open_state) × ((record_failure t c b).opened_at ≡ some t)
unfolding record_failure
failure_opens t c b s h = (ground arith, ground arith)

-- A closed breaker stays closed through failures in a row, at whatever times, while one is left to
-- its threshold. The failure that reaches the threshold opens it: whatever requests and outcomes
-- follow, it admits nothing until its cooldown has passed since that failure.
pub failures_exact :
    (ts : List ℕ) (t : ℕ) (us : List Use) (later : ℕ) (c : Config) (b : Breaker)
    → b.state ≡ closed
    → b.consecutive_failures + length (t ∷ ts) ≡ c.failure_threshold
    → AllBefore (t + c.cooldown) us
    → later < t + c.cooldown
    → ((failures ts c b).state ≡ closed)
      × ((allow_request later c (uses us (c, record_failure t c (failures ts c b))).1).1 ≡ false)
failures_exact ts t us later c b s h early late =
    let below = failures_below ts c b s (omega (arith, h)) in
    let opened = failure_opens t c (failures ts c b) below.0 (omega (arith, h, below.1)) in
    (
      below.0,
      open_refuses c us (record_failure t c (failures ts c b)) t later opened.0 opened.1 early late,
    )
