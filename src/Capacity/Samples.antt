-- ===== src/Capacity/Samples.antt =====
-- The theorems on provider health and accounts applied to one provider.
use hermes_lab.Prelude.{ℕ, ◌≡◌, refl, none, some, [], ◌∷◌, true, arith, leb}
use hermes_lab.Dict.{lookup}
use hermes_lab.Capacity.Status.{
  Health, throttled, rate_limited, authentication, is_provider_available, record_provider_failure,
}
use hermes_lab.Capacity.Usage.{Usages, UsageReport}
use hermes_lab.Capacity.Resets.{rate_limited_exact, stale_reset_revives}

-- A provider that was throttled at 100 until 160.
abbrev health : Health
health = record {
  provider_status = ("anthropic", throttled) ∷ [];
  provider_reset_at = ("anthropic", 160) ∷ [];
  provider_status_reason = [];
  actor_provider_map = ("claude", "anthropic") ∷ [];
  provider_success_count = [];
  provider_failure_count = [];
  provider_failure_breakdown = [];
  provider_throttling_count = [];
}

rate_limited_exact_example :
    (is_provider_available 170 "anthropic"
      (record_provider_failure 120 "anthropic" rate_limited (some 60) none health)).1
    ≡ leb 180 170
rate_limited_exact_example = rate_limited_exact 120 170 60 "anthropic" none health (omega arith)

stale_reset_revives_example :
    (is_provider_available 170 "anthropic"
      (record_provider_failure 120 "anthropic" authentication none none health)).1
    ≡ true
stale_reset_revives_example =
    stale_reset_revives 120 170 160 "anthropic" none none health (unfold lookup in refl)
      (omega arith)

abbrev report : ℕ → ℕ → UsageReport
report tokens_in tokens_out = record {
  reporter = "anthropic";
  for_job = some "job";
  by_actor = some "claude";
  with_model = none;
  tokens_in = tokens_in;
  tokens_out = tokens_out;
  tokens_cached = 0;
  left_requests = none;
  left_tokens = none;
  limit_requests = none;
  limit_tokens = none;
  window = none;
  window_used = none;
  resets = none;
  origin = "internal_accounting";
  clock = "2026-01-01T00:00:00Z";
}

abbrev no_usage : Usages
no_usage = record { usage_snapshots = []; job_token_usage = [] }
