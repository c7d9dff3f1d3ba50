-- ===== src/Capacity/Accounts.antt =====
-- The token accounts: what reports add up to.
use hermes_lab.Prelude.{
  ℕ, ◌+◌, String, ◌≡◌, refl, Option, none, some, List, [], ◌∷◌, Bool, false, arith, eq_iff, ◌==◌,
  if◌then◌else◌,
}
use hermes_lab.Dict.{Dict, lookup}
use hermes_lab.Dict.Laws.{lookup-insert}
use hermes_lab.Capacity.Status.{get_or}
use hermes_lab.Capacity.Usage.{
  JobTotals, no_tokens, Usages, UsageReport, add_to_job, get_job_token_usage, record_usage,
  add_totals,
}

-- A sequence of reports, in order.
unfoldable pub record_all : List UsageReport → Usages → Usages
record_all [] u = u
record_all (r ∷ rs) u = record_all rs (record_usage r u).0

abbrev names : String → Option String → Bool
names job none = false
names job (some s) = if s == "" then false else s == job

-- The tokens, in and out, that the reports of a job count.
abbrev pub spent_for : String → List UsageReport → ℕ
spent_for job [] = 0
spent_for job (r ∷ rs) =
    let rest = spent_for job rs in
    if names job r.for_job then r.tokens_in + r.tokens_out + rest else rest

total-add_to_job :
    (job : String) (o : Option String) (i t c n : ℕ) (d : Dict JobTotals)
    → (get_or no_tokens (lookup job (add_to_job o i t c n d))).total_tokens ≡ (
        if names job o
        then (get_or no_tokens (lookup job d)).total_tokens + n
        else (get_or no_tokens (lookup job d)).total_tokens)
unfolding add_to_job
total-add_to_job job none i t c n d = refl
total-add_to_job job (some s) i t c n d = ground (
  arith,
  eq_iff s job,
  lookup-insert s job (add_totals i t c n (get_or no_tokens (lookup s d))) d,
)

job_step :
    (job : String) (r : UsageReport) (u : Usages)
    → (get_job_token_usage job (record_usage r u).0).total_tokens ≡ (
        if names job r.for_job
        then (get_job_token_usage job u).total_tokens + (r.tokens_in + r.tokens_out)
        else (get_job_token_usage job u).total_tokens)
unfolding get_job_token_usage record_usage
job_step job r u =
    total-add_to_job job r.for_job r.tokens_in r.tokens_out r.tokens_cached
      (r.tokens_in + r.tokens_out) u.job_token_usage

-- The total of a job after any reports is the total before, and the tokens in and out of the reports
-- that name the job.
pub record_all-job :
    (job : String) (rs : List UsageReport) (u : Usages)
    → (get_job_token_usage job (record_all rs u)).total_tokens
      ≡ (get_job_token_usage job u).total_tokens + spent_for job rs
unfolding record_all
record_all-job job [] u = omega arith
record_all-job job (r ∷ rs) u =
    ground (arith, record_all-job job rs (record_usage r u).0, job_step job r u)
