-- ===== src/Capacity/Resets.antt =====
-- How long a provider that failed is kept out, and what ends that.
use hermes_lab.Prelude.{
  ℕ, ◌+◌, ◌≤◌, ◌<◌, String, ◌≡◌, Option, some, true, arith, leb, if◌then◌else◌, eq_refl,
}
use hermes_lab.Dict.{lookup, insert}
use hermes_lab.Dict.Laws.{lookup-insert}
use hermes_lab.Capacity.Status.{
  ProviderStatus, available, throttled, auth_failed, rate_limited, authentication, Health,
  get_provider_status, set_provider_status, count_failure, bump, record_provider_failure,
  is_provider_available, react, reason_or,
}

-- Where a reset time is set and the time has not come, the status is the one that was set.
status-set :
    (now later d : ℕ) (p : String) (s : ProviderStatus) (reason : Option String) (h : Health)
    → 0 < d
    → (get_provider_status later p (set_provider_status now p s reason (some d) h)).1
      ≡ (if leb (now + d) later then available else s)
unfolding get_provider_status set_provider_status
status-set now later d p s reason h pos = ground (
  arith,
  eq_refl p,
  lookup-insert p p s h.provider_status,
  lookup-insert p p available (insert p s h.provider_status),
  lookup-insert p p (now + d) h.provider_reset_at,
)

-- After a rate limit with a positive retry delay, with no other event of the provider in between,
-- the provider is available exactly from the moment at which the delay is over.
pub rate_limited_exact :
    (now later d : ℕ) (p : String) (reason : Option String) (h : Health)
    → 0 < d
    → (is_provider_available later p
        (record_provider_failure now p rate_limited (some d) reason h)).1
      ≡ leb (now + d) later
unfolding is_provider_available record_provider_failure react
rate_limited_exact now later d p reason h pos = ground (
  arith,
  status-set now later d p throttled (reason_or reason "Rate limited")
      (record (count_failure p rate_limited h) {
        provider_throttling_count = bump p h.provider_throttling_count;
      })
      pos,
)

-- A reset time that is due is not cleared by a later failure which sets none: the provider whose
-- authentication failed is available again at the next look.
pub stale_reset_revives :
    (now later t : ℕ) (p : String) (reason : Option String) (retry_after : Option ℕ) (h : Health)
    → lookup p h.provider_reset_at ≡ some t
    → t ≤ later
    → (is_provider_available later p
        (record_provider_failure now p authentication retry_after reason h)).1
      ≡ true
unfolding is_provider_available record_provider_failure react get_provider_status
    set_provider_status
stale_reset_revives now later t p reason retry_after h pending past =
    ground (arith, eq_refl p, lookup-insert p p available (insert p auth_failed h.provider_status))
