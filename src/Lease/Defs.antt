-- ===== src/Lease/Defs.antt =====
-- runtime/lease.py: `JobLease`, `InMemoryJobLeaseStore` and the loop of `JobLeaseManager`.
-- A time is a count of microseconds; the store writes and reads it as an ISO text, which loses
-- nothing. The lock makes each method one step. A duration is what `timedelta(seconds=...)` counts.
use hermes_lab.Prelude.{
  ℕ, ◌+◌, String, Option, none, some, List, [], ◌∷◌, Bool, true, false, not, ◌&&◌, ◌==◌,
  if◌then◌else◌, leb,
}
use hermes_lab.Dict.{Dict, lookup, insert, remove}

pub record JobLease : Type 0 where
  pub job_id : String
  pub owner_id : String
  pub acquired_at : ℕ
  pub lease_until : ℕ
  pub heartbeat_at : ℕ

unfoldable pub is_expired : ℕ → JobLease → Bool
is_expired now l = leb l.lease_until now

unfoldable pub is_active : ℕ → JobLease → Bool
unfolding is_expired
is_active now l = not (is_expired now l)

-- `_leases`
abbrev pub Leases : Type 0
Leases = Dict JobLease

-- The lease that is written at `now`.
abbrev pub granted : ℕ → ℕ → String → String → ℕ → JobLease
granted now acquired job owner duration = record {
  job_id = job;
  owner_id = owner;
  acquired_at = acquired;
  lease_until = now + duration;
  heartbeat_at = now;
}

-- Is there no lease in the way of `owner`?
unfoldable pub may_take : ℕ → String → Option JobLease → Bool
unfolding is_expired
may_take now owner none = true
may_take now owner (some l) = not (not (is_expired now l) && not (l.owner_id == owner))

unfoldable pub acquire_lease : ℕ → String → String → ℕ → Leases → Leases × Bool
unfolding may_take
acquire_lease now job owner duration leases =
    if may_take now owner (lookup job leases)
    then (insert job (granted now now job owner duration) leases, true)
    else (leases, false)

renew_found : Option JobLease → ℕ → String → String → ℕ → Leases → Leases × Bool
renew_found none now job owner duration leases = (leases, false)
renew_found (some l) now job owner duration leases =
    if l.owner_id == owner
    then (insert job (granted now l.acquired_at job owner duration) leases, true)
    else (leases, false)

unfoldable pub renew_lease : ℕ → String → String → ℕ → Leases → Leases × Bool
unfolding renew_found
renew_lease now job owner duration leases =
    renew_found (lookup job leases) now job owner duration leases

release_found : Option JobLease → String → String → Leases → Leases × Bool
release_found none job owner leases = (leases, false)
release_found (some l) job owner leases =
    if l.owner_id == owner then (remove job leases, true) else (leases, false)

unfoldable pub release_lease : String → String → Leases → Leases × Bool
unfolding release_found
release_lease job owner leases = release_found (lookup job leases) job owner leases

unfoldable pub get_lease : String → Leases → Option JobLease
get_lease job leases = lookup job leases

-- A call of the store by some instance.
pub data Call : Type 0 where
  acquire : (now : ℕ) (job owner : String) (duration : ℕ) → Call
  renew : (now : ℕ) (job owner : String) (duration : ℕ) → Call
  release : (now : ℕ) (job owner : String) → Call

unfoldable pub call_result : Call → Leases → Leases × Bool
call_result (acquire now job owner duration) = acquire_lease now job owner duration
call_result (renew now job owner duration) = renew_lease now job owner duration
call_result (release now job owner) = release_lease job owner

unfoldable pub perform : List Call → Leases → Leases
perform [] leases = leases
perform (c ∷ cs) leases = perform cs (call_result c leases).0

-- One round of the heartbeat: what other instances do while it sleeps, and the time it wakes at.
pub record Tick : Type 0 where
  pub meanwhile : List Call
  pub now : ℕ

-- `_heartbeat_loop` over the given rounds: the leases, and whether the lease was found lost, which
-- ends the loop and triggers the fencing callback.
unfoldable pub heartbeat_loop : String → String → ℕ → List Tick → Leases → Leases × Bool
heartbeat_loop job owner duration [] leases = (leases, false)
heartbeat_loop job owner duration (t ∷ ts) leases =
    let (leases', success) = renew_lease t.now job owner duration (perform t.meanwhile leases) in
    let rest = heartbeat_loop job owner duration ts leases' in
    if success then rest else (leases', true)
