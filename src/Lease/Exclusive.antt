-- ===== src/Lease/Exclusive.antt =====
-- While a lease runs, nobody else can take it, renew it or release it.
use hermes_lab.Prelude.{
  ℕ, ◌≤◌, ◌<◌, String, ◌≡◌, ◌≢◌, some, List, [], ◌∷◌, true, false, arith, eq_iff, String-cases,
  Option-cases, inl, inr, eq_refl,
}
use hermes_lab.Dict.{lookup}
use hermes_lab.Dict.Laws.{lookup-insert, lookup-remove}
use hermes_lab.Lease.Defs.{
  JobLease, Leases, granted, acquire_lease, renew_lease, release_lease, Call, acquire, renew,
  release, call_result, perform,
}

abbrev pub caller : Call → String
caller (acquire now job owner duration) = owner
caller (renew now job owner duration) = owner
caller (release now job owner) = owner

abbrev pub time : Call → ℕ
time (acquire now job owner duration) = now
time (renew now job owner duration) = now
time (release now job owner) = now

-- All the calls are made by others than `owner`, before `until`.
abbrev pub AllForeign : String → ℕ → List Call → Type 0
AllForeign owner until [] = Unit
AllForeign owner until (c ∷ cs) = (caller c ≢ owner) × (time c < until) × AllForeign owner until cs

module _ (job : String) (l : JobLease) where
  call_foreign :
      (c : Call) (leases : Leases)
      → lookup job leases ≡ some l
      → caller c ≢ l.owner_id
      → time c < l.lease_until
      → lookup job (call_result c leases).0 ≡ some l
  unfolding call_result acquire_lease renew_lease release_lease
  call_foreign (acquire now j owner d) leases found ne h = elim (String-cases j job) [
    | inl (_, same) ↦ rw same (ground (arith, eq_iff owner l.owner_id, eq_iff l.owner_id owner))
    | inr (other, _) ↦ ground (arith, lookup-insert j job (granted now now j owner d) leases)
  ]
  call_foreign (renew now j owner d) leases found ne h = elim (String-cases j job) [
    | inl (_, same) ↦ rw same (ground (arith, eq_iff owner l.owner_id, eq_iff l.owner_id owner))
    | inr (other, _) ↦ elim (Option-cases (lookup j leases)) [
      | inl gone ↦ ground arith
      | inr (m, there) ↦
          ground (arith, lookup-insert j job (granted now m.acquired_at j owner d) leases)
    ]
  ]
  call_foreign (release now j owner) leases found ne h = elim (String-cases j job) [
    | inl (_, same) ↦ rw same (ground (arith, eq_iff owner l.owner_id, eq_iff l.owner_id owner))
    | inr (other, _) ↦ ground (arith, lookup-remove j job leases)
  ]

  -- While the lease of a job runs, no calls by other instances change it, whatever they are.
  pub perform_foreign :
      (cs : List Call) (leases : Leases)
      → lookup job leases ≡ some l
      → AllForeign l.owner_id l.lease_until cs
      → lookup job (perform cs leases) ≡ some l
  unfolding perform
  perform_foreign [] leases found h = found
  perform_foreign (c ∷ cs) leases found (ne, h, rest) =
      perform_foreign cs (call_result c leases).0 (call_foreign c leases found ne h) rest

-- While an instance's lease of a job runs, and whatever calls others have made since, an attempt
-- of another instance to acquire the job is refused.
pub acquire_excluded :
    (job : String) (l : JobLease) (cs : List Call) (leases : Leases) (now : ℕ) (owner : String)
    (duration : ℕ)
    → lookup job leases ≡ some l
    → AllForeign l.owner_id l.lease_until cs
    → owner ≢ l.owner_id
    → now < l.lease_until
    → (acquire_lease now job owner duration (perform cs leases)).1 ≡ false
unfolding acquire_lease
acquire_excluded job l cs leases now owner duration found foreign ne h =
    ground (arith, perform_foreign job l cs leases found foreign, eq_iff l.owner_id owner)

-- Once the lease has expired another instance takes the job over, and the instance that held it
-- can then neither renew nor release it.
pub takeover_fences :
    (job : String) (l : JobLease) (leases : Leases) (now later : ℕ) (owner : String) (d e : ℕ)
    → lookup job leases ≡ some l
    → owner ≢ l.owner_id
    → l.lease_until ≤ now
    → let (taken, won) = acquire_lease now job owner d leases in
      (won ≡ true)
      × (renew_lease later job l.owner_id e taken ≡ (taken, false))
      × (release_lease job l.owner_id taken ≡ (taken, false))
unfolding acquire_lease renew_lease release_lease
takeover_fences job l leases now later owner d e found ne h =
    let mine = lookup-insert job job (granted now now job owner d) leases in
    (
      ground arith,
      ground (arith, mine, eq_refl job, eq_iff owner l.owner_id),
      ground (arith, mine, eq_refl job, eq_iff owner l.owner_id),
    )
