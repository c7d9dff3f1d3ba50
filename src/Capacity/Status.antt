-- ===== src/Capacity/Status.antt =====
-- runtime/capacity.py: the health of the providers in `CapacityRegistry`. A method that reads the
-- clock takes `now`, in microseconds; so are the delays. `get_provider_status` may write, so what
-- calls it returns the registry too.
use hermes_lab.Prelude.{
  ℕ, ◌+◌, String, Option, none, some, [], Bool, true, false, ltb, leb, eqb, if◌then◌else◌, ◌==◌,
}
use hermes_lab.Dict.{Dict, lookup, has, insert, remove}

pub data ProviderStatus : Type 0 where
  available degraded throttled quota_exhausted context_pressure context_exhausted auth_failed
        unavailable unknown_status :
      ProviderStatus

pub data FailureClass : Type 0 where
  rate_limited token_quota_exhausted context_too_large authentication billing provider_outage
        model_unavailable content_filter network transient unknown_failure :
      FailureClass

-- The `value` of a status.
abbrev pub status_value : ProviderStatus → String
status_value available = "available"
status_value degraded = "degraded"
status_value throttled = "throttled"
status_value quota_exhausted = "quota_exhausted"
status_value context_pressure = "context_pressure"
status_value context_exhausted = "context_exhausted"
status_value auth_failed = "auth_failed"
status_value unavailable = "unavailable"
status_value unknown_status = "unknown"

-- The `value` of a failure class, the key of the breakdown.
abbrev pub class_value : FailureClass → String
class_value rate_limited = "rate_limited"
class_value token_quota_exhausted = "token_quota_exhausted"
class_value context_too_large = "context_too_large"
class_value authentication = "authentication"
class_value billing = "billing"
class_value provider_outage = "provider_outage"
class_value model_unavailable = "model_unavailable"
class_value content_filter = "content_filter"
class_value network = "network"
class_value transient = "transient"
class_value unknown_failure = "unknown"

pub record Health : Type 0 where
  pub provider_status : Dict ProviderStatus
  pub provider_reset_at : Dict ℕ
  pub provider_status_reason : Dict String
  pub actor_provider_map : Dict String
  pub provider_success_count : Dict ℕ
  pub provider_failure_count : Dict ℕ
  pub provider_failure_breakdown : Dict (Dict ℕ)
  pub provider_throttling_count : Dict ℕ

abbrev pub get_or {ℓ} : {A : Type ℓ} → A → Option A → A
get_or default none = default
get_or default (some a) = a

unfoldable pub get_provider_for_actor : String → Health → String
get_provider_for_actor actor h = get_or actor (lookup actor h.actor_provider_map)

unfoldable pub register_actor_provider : String → String → Health → Health
register_actor_provider actor provider h =
    let mapped = record h { actor_provider_map = insert actor provider h.actor_provider_map } in
    if has provider h.provider_status
    then mapped
    else record mapped { provider_status = insert provider available h.provider_status }

-- Has the time come at which the status of the provider resets?
abbrev pub due : ℕ → Option ℕ → Bool
due now none = false
due now (some t) = leb t now

-- The first part of `get_provider_status`.
unfoldable pub refreshed : ℕ → String → Health → Health
refreshed now p h =
    if due now (lookup p h.provider_reset_at)
    then record h {
      provider_status = insert p available h.provider_status;
      provider_reset_at = remove p h.provider_reset_at;
      provider_status_reason = remove p h.provider_status_reason;
    }
    else h

abbrev pub status_of : String → Health → ProviderStatus
status_of p h = get_or available (lookup p h.provider_status)

unfoldable pub get_provider_status : ℕ → String → Health → Health × ProviderStatus
unfolding refreshed
get_provider_status now p h = (refreshed now p h, status_of p (refreshed now p h))

abbrev is_available : ProviderStatus → Bool
is_available available = true
is_available _ = false

abbrev with_reason : String → Option String → Dict String → Dict String
with_reason p none reasons = reasons
with_reason p (some reason) reasons = if reason == "" then reasons else insert p reason reasons

-- `if reset_in_seconds and reset_in_seconds > 0`
abbrev pub delay_of : Option ℕ → ℕ
delay_of none = 0
delay_of (some d) = d

unfoldable pub set_provider_status :
    ℕ → String → ProviderStatus → Option String → Option ℕ → Health → Health
set_provider_status now p status reason reset_in h =
    let h' = record h {
      provider_status = insert p status h.provider_status;
      provider_status_reason = with_reason p reason h.provider_status_reason;
    } in
    if ltb 0 (delay_of reset_in)
    then record h' { provider_reset_at = insert p (now + delay_of reset_in) h.provider_reset_at }
    else if is_available status
    then record h' {
      provider_reset_at = remove p h.provider_reset_at;
      provider_status_reason = remove p h'.provider_status_reason;
    }
    else h'

-- `d[k] = d.get(k, 0) + 1`
abbrev pub bump : String → Dict ℕ → Dict ℕ
bump k d = insert k (get_or 0 (lookup k d) + 1) d

-- THROTTLED, DEGRADED and UNKNOWN
abbrev recovers : ProviderStatus → Bool
recovers throttled = true
recovers degraded = true
recovers unknown_status = true
recovers _ = false

-- `record_provider_success`, but for the snapshot that a caller may hand over: no caller does.
unfoldable pub record_provider_success : ℕ → String → Health → Health
unfolding get_provider_status set_provider_status
record_provider_success now p h =
    let counted = record h { provider_success_count = bump p h.provider_success_count } in
    let (h', current) = get_provider_status now p counted in
    if recovers current then set_provider_status now p available none none h' else h'

-- `value or default`
abbrev pub delay_or : Option ℕ → ℕ → Option ℕ
delay_or none d = some d
delay_or (some v) d = if eqb v 0 then some d else some v

abbrev pub reason_or : Option String → String → Option String
reason_or none r = some r
reason_or (some s) r = if s == "" then some r else some s

abbrev pub count_failure : String → FailureClass → Health → Health
count_failure p class h = record h {
  provider_failure_count = bump p h.provider_failure_count;
  provider_failure_breakdown =
      insert p (bump (class_value class) (get_or [] (lookup p h.provider_failure_breakdown)))
        h.provider_failure_breakdown;
}

-- The `if`/`elif` chain of `record_provider_failure`.
unfoldable pub react : ℕ → String → FailureClass → Option ℕ → Option String → Health → Health
unfolding set_provider_status
react now p rate_limited retry_after reason h =
    set_provider_status now p throttled (reason_or reason "Rate limited")
      (delay_or retry_after 60_000_000)
      (record h { provider_throttling_count = bump p h.provider_throttling_count })
react now p token_quota_exhausted retry_after reason h =
    set_provider_status now p quota_exhausted (reason_or reason "Quota exhausted") retry_after h
react now p billing retry_after reason h =
    set_provider_status now p quota_exhausted (reason_or reason "Quota exhausted") retry_after h
react now p context_too_large retry_after reason h =
    set_provider_status now p context_exhausted (reason_or reason "Context window exhausted") none h
react now p authentication retry_after reason h =
    set_provider_status now p auth_failed (reason_or reason "Authentication failure") none h
react now p provider_outage retry_after reason h =
    set_provider_status now p unavailable (reason_or reason "Provider outage")
      (delay_or retry_after 120_000_000) h
react now p class retry_after reason h = h

unfoldable pub record_provider_failure :
    ℕ → String → FailureClass → Option ℕ → Option String → Health → Health
unfolding react
record_provider_failure now p class retry_after reason h =
    react now p class retry_after reason (count_failure p class h)

-- AVAILABLE and DEGRADED
abbrev pub serves : ProviderStatus → Bool
serves available = true
serves degraded = true
serves _ = false

unfoldable pub is_provider_available : ℕ → String → Health → Health × Bool
unfolding get_provider_status
is_provider_available now p h =
    let (h', status) = get_provider_status now p h in (h', serves status)

unfoldable pub is_actor_available : ℕ → String → Health → Health × Bool
unfolding is_provider_available get_provider_for_actor
is_actor_available now actor h = is_provider_available now (get_provider_for_actor actor h) h
