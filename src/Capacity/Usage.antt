-- ===== src/Capacity/Usage.antt =====
-- runtime/capacity.py: `UsageSnapshot`, and the token accounts of `CapacityRegistry`
-- (`record_snapshot`, `record_usage`). A dictionary of job totals has four fixed keys: a record.
use hermes_lab.Prelude.{
  ℕ, ◌+◌, max, String, Option, none, some, ◌&&◌, ◌||◌, ltb, eqb, if◌then◌else◌, ◌==◌,
}
use hermes_lab.Dict.{Dict, lookup, insert}
use hermes_lab.Capacity.Status.{get_or}

pub record UsageSnapshot : Type 0 where
  pub provider_id : String
  pub model_id : Option String
  pub actor_id : Option String
  pub input_tokens : ℕ
  pub output_tokens : ℕ
  pub cached_tokens : ℕ
  pub requests_used : ℕ
  pub requests_remaining : Option ℕ
  pub request_limit : Option ℕ
  pub tokens_used : ℕ
  pub tokens_remaining : Option ℕ
  pub token_limit : Option ℕ
  pub context_window : Option ℕ
  pub context_used : Option ℕ
  pub reset_at : Option String
  pub observed_at : String
  pub source : String

-- `__post_init__`
unfoldable pub post_init : UsageSnapshot → UsageSnapshot
post_init s =
    let used =
      if eqb s.tokens_used 0 && (ltb 0 s.input_tokens || ltb 0 s.output_tokens)
      then s.input_tokens + s.output_tokens
      else s.tokens_used in
    record s {
      tokens_used = used;
      requests_used = if eqb s.requests_used 0 && ltb 0 used then 1 else s.requests_used;
    }

pub record JobTotals : Type 0 where
  pub input_total : ℕ
  pub output_total : ℕ
  pub cached_total : ℕ
  pub total_tokens : ℕ

abbrev pub no_tokens : JobTotals
no_tokens = record { input_total = 0; output_total = 0; cached_total = 0; total_tokens = 0 }

pub record Usages : Type 0 where
  pub usage_snapshots : Dict UsageSnapshot
  pub job_token_usage : Dict JobTotals

-- The four `+=` on the totals of a job.
abbrev pub add_totals : ℕ → ℕ → ℕ → ℕ → JobTotals → JobTotals
add_totals i o c t totals = record {
  input_total = totals.input_total + i;
  output_total = totals.output_total + o;
  cached_total = totals.cached_total + c;
  total_tokens = totals.total_tokens + t;
}

unfoldable pub get_usage : String → Usages → Option UsageSnapshot
get_usage p u = lookup p u.usage_snapshots

unfoldable pub get_job_token_usage : String → Usages → JobTotals
get_job_token_usage job u = get_or no_tokens (lookup job u.job_token_usage)

-- `new if new is not None else old`
abbrev pub newer {ℓ} : {A : Type ℓ} → Option A → Option A → Option A
newer none old = old
newer (some a) old = some a

-- `new or old` on optional texts
abbrev pub or_old : Option String → Option String → Option String
or_old none old = old
or_old (some s) old = if s == "" then old else some s

abbrev merged_source : String → String → String
merged_source new old =
    if old == "provider_reported" && (new == "unknown" || new == "internal_accounting")
    then old
    else if new == "unknown"
    then old
    else new

-- `merged` of `record_snapshot`
abbrev merged_snapshot : UsageSnapshot → UsageSnapshot → UsageSnapshot
merged_snapshot new old = record {
  provider_id = new.provider_id;
  model_id = or_old new.model_id old.model_id;
  actor_id = or_old new.actor_id old.actor_id;
  input_tokens = old.input_tokens + new.input_tokens;
  output_tokens = old.output_tokens + new.output_tokens;
  cached_tokens = old.cached_tokens + new.cached_tokens;
  requests_used = old.requests_used + max 1 new.requests_used;
  requests_remaining = newer new.requests_remaining old.requests_remaining;
  request_limit = newer new.request_limit old.request_limit;
  tokens_used = old.tokens_used + new.tokens_used;
  tokens_remaining = newer new.tokens_remaining old.tokens_remaining;
  token_limit = newer new.token_limit old.token_limit;
  context_window = newer new.context_window old.context_window;
  context_used = newer new.context_used old.context_used;
  reset_at = newer new.reset_at old.reset_at;
  observed_at = new.observed_at;
  source = merged_source new.source old.source;
}

abbrev pub final_snapshot : UsageSnapshot → Option UsageSnapshot → UsageSnapshot
unfolding post_init
final_snapshot new none = new
final_snapshot new (some old) = post_init (merged_snapshot new old)

-- Adds to the totals of a job, where there is one.
unfoldable pub add_to_job : Option String → ℕ → ℕ → ℕ → ℕ → Dict JobTotals → Dict JobTotals
add_to_job none i o c t totals = totals
add_to_job (some job) i o c t totals =
    if job == ""
    then totals
    else insert job (add_totals i o c t (get_or no_tokens (lookup job totals))) totals

unfoldable pub record_snapshot : UsageSnapshot → Option String → Usages → Usages × UsageSnapshot
unfolding add_to_job post_init
record_snapshot s job u =
    let final = final_snapshot s (lookup s.provider_id u.usage_snapshots) in
    (
      record {
        usage_snapshots = insert s.provider_id final u.usage_snapshots;
        job_token_usage =
            if ltb 0 s.input_tokens || ltb 0 s.output_tokens || ltb 0 s.cached_tokens
            then add_to_job job s.input_tokens s.output_tokens s.cached_tokens s.tokens_used
                u.job_token_usage
            else u.job_token_usage;
      },
      final,
    )

-- The arguments of `record_usage`, with the text of the clock that `observed_at` reads.
pub record UsageReport : Type 0 where
  pub reporter : String
  pub for_job : Option String
  pub by_actor : Option String
  pub with_model : Option String
  pub tokens_in : ℕ
  pub tokens_out : ℕ
  pub tokens_cached : ℕ
  pub left_requests : Option ℕ
  pub left_tokens : Option ℕ
  pub limit_requests : Option ℕ
  pub limit_tokens : Option ℕ
  pub window : Option ℕ
  pub window_used : Option ℕ
  pub resets : Option String
  pub origin : String
  pub clock : String

abbrev pub usage_snapshot : UsageReport → Option UsageSnapshot → UsageSnapshot
usage_snapshot r none = record {
  provider_id = r.reporter;
  model_id = r.with_model;
  actor_id = r.by_actor;
  input_tokens = r.tokens_in;
  output_tokens = r.tokens_out;
  cached_tokens = r.tokens_cached;
  requests_used = 1;
  requests_remaining = r.left_requests;
  request_limit = r.limit_requests;
  tokens_used = r.tokens_in + r.tokens_out;
  tokens_remaining = r.left_tokens;
  token_limit = r.limit_tokens;
  context_window = r.window;
  context_used = r.window_used;
  reset_at = r.resets;
  observed_at = r.clock;
  source = r.origin;
}
usage_snapshot r (some old) = record {
  provider_id = r.reporter;
  model_id = or_old r.with_model old.model_id;
  actor_id = or_old r.by_actor old.actor_id;
  input_tokens = old.input_tokens + r.tokens_in;
  output_tokens = old.output_tokens + r.tokens_out;
  cached_tokens = old.cached_tokens + r.tokens_cached;
  requests_used = old.requests_used + 1;
  requests_remaining = newer r.left_requests old.requests_remaining;
  request_limit = newer r.limit_requests old.request_limit;
  tokens_used = old.tokens_used + (r.tokens_in + r.tokens_out);
  tokens_remaining = newer r.left_tokens old.tokens_remaining;
  token_limit = newer r.limit_tokens old.token_limit;
  context_window = newer r.window old.context_window;
  context_used = newer r.window_used old.context_used;
  reset_at = newer r.resets old.reset_at;
  observed_at = r.clock;
  source = merged_source r.origin old.source;
}

unfoldable pub record_usage : UsageReport → Usages → Usages × UsageSnapshot
unfolding add_to_job post_init
record_usage r u =
    let snapshot = post_init (usage_snapshot r (lookup r.reporter u.usage_snapshots)) in
    (
      record {
        usage_snapshots = insert r.reporter snapshot u.usage_snapshots;
        job_token_usage =
            add_to_job r.for_job r.tokens_in r.tokens_out r.tokens_cached
              (r.tokens_in + r.tokens_out) u.job_token_usage;
      },
      snapshot,
    )
