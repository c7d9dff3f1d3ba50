-- ===== src/Lease/Samples.antt =====
-- The theorems on leases applied to one lease.
use hermes_lab.Prelude.{eq_iff, ◌≡◌, ◌≢◌, refl, some, List, [], ◌∷◌, true, false, arith, String}
use hermes_lab.Dict.{lookup}
use hermes_lab.Lease.Defs.{
  JobLease, Leases, Call, acquire, renew, release, perform, acquire_lease, renew_lease,
  release_lease, Tick, heartbeat_loop,
}
use hermes_lab.Lease.Exclusive.{perform_foreign, acquire_excluded, takeover_fences}
use hermes_lab.Lease.Heartbeat.{heartbeat_loop_holds}

abbrev lease : JobLease
lease = record {
  job_id = "job";
  owner_id = "one";
  acquired_at = 100;
  lease_until = 160;
  heartbeat_at = 100;
}

abbrev held : Leases
held = ("job", lease) ∷ []

abbrev calls : List Call
calls = acquire 110 "job" "two" 60 ∷ renew 120 "job" "two" 60 ∷ release 130 "job" "two" ∷ []

two-one : ◌≢◌ {A = String} "two" "one"
two-one e = cc ((eq_iff "two" "one").1 e)

found : lookup "job" held ≡ some lease
unfolding lookup
found = refl

perform_foreign_example : lookup "job" (perform calls held) ≡ some lease
perform_foreign_example =
    perform_foreign "job" lease calls held found
      (two-one, omega arith, (two-one, omega arith, (two-one, omega arith, tt)))

acquire_excluded_example : (acquire_lease 150 "job" "two" 60 (perform calls held)).1 ≡ false
acquire_excluded_example =
    acquire_excluded "job" lease calls held 150 "two" 60 found
      (two-one, omega arith, (two-one, omega arith, (two-one, omega arith, tt))) two-one
      (omega arith)

takeover_fences_example :
    let (taken, won) = acquire_lease 170 "job" "two" 60 held in
    (won ≡ true)
    × (renew_lease 180 "job" "one" 60 taken ≡ (taken, false))
    × (release_lease "job" "one" taken ≡ (taken, false))
takeover_fences_example =
    takeover_fences "job" lease held 170 180 "two" 60 60 found two-one (omega arith)

abbrev ticks : List Tick
ticks = record { meanwhile = calls; now = 140 } ∷ record { meanwhile = []; now = 180 } ∷ []

heartbeat_loop_holds_example :
    let (leases', lost) = heartbeat_loop "job" "one" 60 ticks held in
    (lost ≡ false) × ((m : JobLease) × (lookup "job" leases' ≡ some m) × (m.owner_id ≡ "one"))
heartbeat_loop_holds_example =
    heartbeat_loop_holds "job" "one" 60 ticks held lease found refl
      ((two-one, omega arith, (two-one, omega arith, (two-one, omega arith, tt))), (tt, tt))
