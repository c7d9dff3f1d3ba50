-- ===== src/Lease/Heartbeat.antt =====
-- A heartbeat that is on time keeps the lease.
use hermes_lab.Prelude.{
  ℕ, ◌+◌, String, ◌≡◌, refl, some, List, [], ◌∷◌, true, false, arith, eq_refl, eq_iff,
}
use hermes_lab.Dict.{lookup, insert}
use hermes_lab.Dict.Laws.{lookup-insert}
use hermes_lab.Lease.Defs.{JobLease, Leases, granted, renew_lease, perform, Tick, heartbeat_loop}
use hermes_lab.Lease.Exclusive.{AllForeign, perform_foreign}

-- Between two rounds nobody acts under the holder's name, and what others do comes before the lease
-- that the last round wrote ends. When the round itself wakes is left open.
abbrev pub OnTime : String → ℕ → ℕ → List Tick → Type 0
OnTime owner duration until [] = Unit
OnTime owner duration until (t ∷ ts) =
    AllForeign owner until t.meanwhile × OnTime owner duration (t.now + duration) ts

module _ (job owner : String) (duration : ℕ) where
  -- The holder of a lease, whatever calls the other instances make between its rounds while the
  -- lease of the last round runs, never finds the lease lost, and holds it after the last round.
  pub heartbeat_loop_holds :
      (ts : List Tick) (leases : Leases) (l : JobLease)
      → lookup job leases ≡ some l
      → l.owner_id ≡ owner
      → OnTime owner duration l.lease_until ts
      → let (leases', lost) = heartbeat_loop job owner duration ts leases in
        (lost ≡ false) × ((m : JobLease) × (lookup job leases' ≡ some m) × (m.owner_id ≡ owner))
  unfolding heartbeat_loop
  heartbeat_loop_holds [] leases l found mine h = (refl, (l, found, mine))
  heartbeat_loop_holds (t ∷ ts) leases l found mine (foreign, rest) =
      rw (renewed, heartbeat_loop)
        (heartbeat_loop_holds ts (insert job next before) next now_held refl rest)
    where
      before : Leases
      before = perform t.meanwhile leases

      next : JobLease
      next = granted t.now l.acquired_at job owner duration

      still_held : lookup job before ≡ some l
      still_held = perform_foreign job l t.meanwhile leases found (rw mine foreign)

      renewed : renew_lease t.now job owner duration before ≡ (insert job next before, true)
      renewed = unfold renew_lease in ground (arith, still_held, mine, eq_iff l.owner_id owner)

      now_held : lookup job (insert job next before) ≡ some next
      now_held = ground (arith, lookup-insert job job next before, eq_refl job)
