-- ===== src/Capacity/Classify.antt =====
-- runtime/capacity.py: `ProviderFailureClassifier.classify` and
-- `CapacityRegistry.check_soft_capacity`.
use hermes_lab.Prelude.{
  ℕ, ◌+◌, String, Option, none, some, List, [], ◌∷◌, Bool, true, false, not, ◌&&◌, ◌||◌, ltb, eqb,
  if◌then◌else◌, is_some,
}
use text.Mathlib.Text.{find?}
use hermes_lab.Capacity.Status.{
  FailureClass, rate_limited, token_quota_exhausted, context_too_large, authentication, billing,
  provider_outage, model_unavailable, content_filter, network, unknown_failure, serves,
  get_provider_for_actor, get_provider_status, Health,
}
use hermes_lab.Capacity.Usage.{UsageSnapshot, Usages, get_usage}

-- Does the text contain one of the phrases?
abbrev says : String → List String → Bool
says text [] = false
says text (p ∷ ps) = is_some (find? text p) || says text ps

-- The classes that a status code decides: `none` for any other code.
abbrev from_status : Option ℕ → String → Option ℕ → Option (FailureClass × Option ℕ)
from_status none err retry_after = none
from_status (some code) err retry_after =
    if eqb code 429
    then if says err ("quota" ∷ "insufficient_quota" ∷ "exceeded your current quota" ∷ [])
      then some (token_quota_exhausted, retry_after)
      else some (rate_limited, retry_after)
    else if eqb code 401 || eqb code 403
    then some (authentication, none)
    else if eqb code 402
    then some (billing, none)
    else if eqb code 502 || eqb code 503 || eqb code 504
    then some (provider_outage, retry_after)
    else none

-- `retry_after or …`, where 0 counts as absent
abbrev seconds_or : Option ℕ → Option ℕ → Option ℕ
seconds_or none other = other
seconds_or (some d) other = if eqb d 0 then other else some d

-- The signatures of a message, in the order of the tests. `until_reset` is what
-- `seconds_until_reset` reads out of the message.
abbrev from_message : String → Option ℕ → Option ℕ → FailureClass × Option ℕ
from_message err until_reset retry_after =
    if says err (
      "context_length_exceeded" ∷ "maximum context length" ∷ "too many tokens" ∷ "context window"
      ∷ "prompt too long" ∷ [])
    then (context_too_large, none)
    else if says err ("model_not_found" ∷ "unknown model" ∷ [])
        || says err ("model" ∷ [])
          && says err
              ("does not exist" ∷ "not found" ∷ "unavailable" ∷ "deprecated" ∷ "unsupported" ∷ [])
    then (model_unavailable, none)
    else if says err
        ("content_filter" ∷ "safety" ∷ "blocked by safety policy" ∷ "responsible ai" ∷ [])
    then (content_filter, none)
    else if says err
        ("rate limit" ∷ "too many requests" ∷ "resource has been exhausted (e.g. check quota)" ∷ [])
    then if says err ("quota" ∷ "credit balance" ∷ "insufficient_quota" ∷ [])
      then (token_quota_exhausted, retry_after)
      else (rate_limited, retry_after)
    else if says err (
        "usage_limit_reached" ∷ "hit your session limit" ∷ "usage limit reached"
        ∷ "hit your weekly limit" ∷ "hit your usage limit" ∷ [])
    then (token_quota_exhausted, seconds_or retry_after until_reset)
    else if says err (
        "quota exceeded" ∷ "exceeded your quota" ∷ "insufficient quota" ∷ "billing"
        ∷ "payment required" ∷ [])
    then (token_quota_exhausted, retry_after)
    else if says err
        ("invalid api key" ∷ "unauthorized" ∷ "authentication" ∷ "auth error" ∷ "forbidden" ∷ [])
    then (authentication, none)
    else if says err
        ("overloaded" ∷ "capacity" ∷ "service unavailable" ∷ "bad gateway" ∷ "gateway timeout" ∷ [])
    then (provider_outage, retry_after)
    else if says err (
        "connection error" ∷ "connection reset" ∷ "connection refused" ∷ "timeout" ∷ "ssl error"
        ∷ "remote disconnected" ∷ [])
    then (network, retry_after)
    else (unknown_failure, none)

abbrev or_else {ℓ} : {A : Type ℓ} → Option A → A → A
or_else none a = a
or_else (some b) a = b

-- `classify` from the lowered text of the error and the delay in the headers on.
unfoldable pub classify : String → Option ℕ → Option ℕ → Option ℕ → FailureClass × Option ℕ
classify err code until_reset retry_after =
    or_else (from_status code err retry_after) (from_message err until_reset retry_after)

-- TaskBudgetEstimate, the two fields that the check reads
pub record TaskBudget : Type 0 where
  pub expected_input_tokens : ℕ
  pub expected_output_tokens : ℕ

-- Is `left / limit` below the threshold? The division and its threshold are floating-point numbers:
-- the test is an argument. No answer where one number is missing or the limit is 0.
abbrev low : (ℕ → ℕ → Bool) → Option ℕ → Option ℕ → Bool
low below none limit = false
low below (some left) none = false
low below (some left) (some limit) = ltb 0 limit && below left limit

abbrev over_budget : Option TaskBudget → Option ℕ → Bool
over_budget none left = false
over_budget (some b) none = false
over_budget (some b) (some left) =
    let needed = b.expected_input_tokens + b.expected_output_tokens in
    ltb 0 needed && ltb left needed

abbrev headroom : (ℕ → ℕ → Bool) → (ℕ → ℕ → Bool) → Option TaskBudget → Option UsageSnapshot → Bool
headroom low_tokens low_requests budget none = true
headroom low_tokens low_requests budget (some usage) =
    not (low low_tokens usage.tokens_remaining usage.token_limit)
    && not (low low_requests usage.requests_remaining usage.request_limit)
    && not (over_budget budget usage.tokens_remaining)

-- `check_soft_capacity`, without the text of the reason
unfoldable pub check_soft_capacity :
    (ℕ → ℕ → Bool)
    → (ℕ → ℕ → Bool)
    → ℕ
    → String
    → Option TaskBudget
    → Usages
    → Health
    → Health × Bool
unfolding get_provider_status get_provider_for_actor get_usage
check_soft_capacity low_tokens low_requests now actor budget u h =
    let p = get_provider_for_actor actor h in
    let (h', status) = get_provider_status now p h in
    (h', serves status && headroom low_tokens low_requests budget (get_usage p u))
