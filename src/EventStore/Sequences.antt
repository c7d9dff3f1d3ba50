-- ===== src/EventStore/Sequences.antt =====
-- The events of a job are numbered 1, 2, 3, … without a gap, and appending is idempotent.
use hermes_lab.Prelude.{
  ℕ, zero, suc, ◌+◌, ◌≤◌, String, ◌≡◌, refl, Option, none, some, List, [], ◌∷◌, ◌++◌, Bool, true,
  false, ◌==◌, ltb, eq_refl, if◌then◌else◌, ok, arith, keep, drop, max, length, length-append, inl,
  inr, ◌⊎◌, Option-cases, String-cases,
}
use hermes_lab.Dict.{lookup}
use hermes_lab.Dict.Laws.{lookup-insert}
use hermes_lab.EventStore.Defs.{
  StoredEvent, EventStore, empty, same_option, job_events, latest_sequence, stored_as, place,
  same_event, append, sort_events, list_events, events_after, take_limit,
}

module _ {P : Type 0} where
  -- The sequences are `k + 1`, `k + 2`, and so on.
  abbrev pub IsNumbered : ℕ → List (StoredEvent P) → Type 0
  IsNumbered k [] = Unit
  IsNumbered k (e ∷ es) = (e.sequence ≡ suc k) × IsNumbered (suc k) es

  IsNumbered-snoc :
      (k : ℕ) (es : List (StoredEvent P)) (e : StoredEvent P)
      → IsNumbered k es
      → e.sequence ≡ k + length es + 1
      → IsNumbered k (es ++ e ∷ [])
  IsNumbered-snoc k [] e h q = (omega arith, tt)
  IsNumbered-snoc k (f ∷ fs) e h q = (h.0, IsNumbered-snoc (suc k) fs e h.1 (omega arith))

  pub record IsStore (s : EventStore P) : Type 0 where
    pub numbered : (job : String) → IsNumbered 0 (job_events job s)
    pub counted : (job : String) → length (job_events job s) ≡ latest_sequence job s

  job_events-place :
      (job : String) (n : ℕ) (e : StoredEvent P) (s : EventStore P)
      → job_events job (place n e s) ≡ (
          if e.job_id == job then job_events e.job_id s ++ stored_as n e ∷ [] else job_events job s)
  unfolding place
  job_events-place job n e s = ground (
    arith,
    lookup-insert e.job_id job (job_events e.job_id s ++ stored_as n e ∷ []) s.events_by_job,
  )

  latest_sequence-place :
      (job : String) (n : ℕ) (e : StoredEvent P) (s : EventStore P)
      → latest_sequence job (place n e s)
        ≡ (if e.job_id == job then max (latest_sequence e.job_id s) n else latest_sequence job s)
  unfolding place
  latest_sequence-place job n e s =
      ground
        (arith, lookup-insert e.job_id job (max (latest_sequence e.job_id s) n) s.job_sequences)

  place-IsStore :
      (e : StoredEvent P) (s : EventStore P)
      → IsStore s
      → IsStore (place (latest_sequence e.job_id s + 1) e s)
  place-IsStore e s h = record {
    numbered = λ job. elim (String-cases e.job_id job) [
      | inl (at, _) ↦
          rw (job_events-place job next e s, at)
            (IsNumbered-snoc 0 (job_events e.job_id s) (stored_as next e) (h.numbered e.job_id)
              (omega (arith, h.counted e.job_id)))
      | inr (off, _) ↦ rw (job_events-place job next e s, off) (h.numbered job)
    ];
    counted = λ job. elim (String-cases e.job_id job) [
      | inl (at, _) ↦
          rw (job_events-place job next e s, latest_sequence-place job next e s, at)
            (omega (
              arith,
              length-append {0} (job_events e.job_id s) (stored_as next e ∷ []),
              h.counted e.job_id,
            ))
      | inr (off, _) ↦
          rw (job_events-place job next e s, latest_sequence-place job next e s, off)
            (h.counted job)
    ];
  }
    where
      next : ℕ
      next = latest_sequence e.job_id s + 1

  pub empty-IsStore : IsStore (empty {P = P})
  unfolding empty latest_sequence lookup
  empty-IsStore = record { numbered = λ job. tt; counted = λ job. refl }

module _ {P : Type 0} (payload_eq : P → P → Bool) where
  -- An append that returns has stored the event under the next sequence of its job, or has found
  -- it there already.
  append-eq-ok :
      (e : StoredEvent P) (s s' : EventStore P) (st : StoredEvent P)
      → append payload_eq e s ≡ ok (s', st)
      → (lookup e.event_id s.events_by_id ≡ none)
          × (s' ≡ place (latest_sequence e.job_id s + 1) e s)
          × (st ≡ stored_as (latest_sequence e.job_id s + 1) e)
        ⊎ (lookup e.event_id s.events_by_id ≡ some st)
          × (same_event payload_eq st e ≡ true)
          × (s' ≡ s)
  unfolding append
  append-eq-ok e s s' st h = elim (Option-cases (lookup e.event_id s.events_by_id)) [
    | inl new ↦ inl (ground arith)
    | inr (old, seen) ↦ inr (ground arith)
  ]

  append_open :
      (e : StoredEvent P) (s s' : EventStore P) (st : StoredEvent P)
      → append payload_eq e s ≡ ok (s', st)
      → s.closed ≡ false
  unfolding append
  append_open e s s' st h = ground arith

  -- Every append that returns keeps the events of each job numbered 1, 2, 3, … without a gap, and the
  -- count of each job the number of its events.
  pub append-IsStore :
      (e : StoredEvent P) (s s' : EventStore P) (st : StoredEvent P)
      → append payload_eq e s ≡ ok (s', st)
      → IsStore s
      → IsStore s'
  append-IsStore e s s' st h inv = elim (append-eq-ok e s s' st h) [
    | inl (_, placed, _) ↦ rw placed (place-IsStore e s inv)
    | inr (_, _, kept) ↦ rw kept inv
  ]

  same_option_refl : (o : Option String) → same_option o o ≡ true
  same_option_refl none = refl
  same_option_refl (some t) = eq_refl t

  same_event-stored_as :
      (n : ℕ) (e : StoredEvent P)
      → payload_eq e.payload e.payload ≡ true
      → same_event payload_eq (stored_as n e) e ≡ true
  unfolding same_event
  same_event-stored_as n e same = ground (
    arith,
    same,
    eq_refl e.job_id,
    eq_refl e.event_type,
    same_option_refl e.task_id,
    same_option_refl e.run_id,
    same_option_refl e.actor_id,
  )

  again :
      (n : ℕ) (e : StoredEvent P) (s : EventStore P)
      → s.closed ≡ false
      → payload_eq e.payload e.payload ≡ true
      → append payload_eq e (place n e s) ≡ ok (place n e s, stored_as n e)
  unfolding append place
  again n e s running same = ground (
    arith,
    lookup-insert e.event_id e.event_id (stored_as n e) s.events_by_id,
    eq_refl e.event_id,
    same_event-stored_as n e same,
  )

  -- Appending an event again, where its payload equals itself, changes nothing and returns the
  -- event as it was stored, its sequence included.
  pub append_twice :
      (e : StoredEvent P) (s s' : EventStore P) (st : StoredEvent P)
      → payload_eq e.payload e.payload ≡ true
      → append payload_eq e s ≡ ok (s', st)
      → append payload_eq e s' ≡ ok (s', st)
  append_twice e s s' st same h = elim (append-eq-ok e s s' st h) [
    | inl (new, placed, stored) ↦
        rw (placed, stored)
          (again (latest_sequence e.job_id s + 1) e s (append_open e s s' st h) same)
    | inr (seen, equal, kept) ↦ rw kept (rw kept at h)
  ]

module _ {P : Type 0} where
  pub sort_numbered : (k : ℕ) (es : List (StoredEvent P)) → IsNumbered k es → sort_events es ≡ es
  unfolding sort_events
  sort_numbered k [] h = refl
  sort_numbered k (e ∷ []) h = refl
  sort_numbered k (e ∷ f ∷ fs) h =
      rw (sort_numbered (suc k) (f ∷ fs) h.1, sort_events) (ground arith)

  keep_later :
      (n k : ℕ) (es : List (StoredEvent P))
      → IsNumbered k es
      → n ≤ k
      → keep (λ e. ltb n e.sequence) es ≡ es
  unfolding keep
  keep_later n k [] h q = refl
  keep_later n k (e ∷ es) h q = ground (arith, h.0, keep_later n (suc k) es h.1 (omega arith))

  keep_numbered :
      (m n k : ℕ) (es : List (StoredEvent P))
      → IsNumbered k es
      → n ≡ k + m
      → keep (λ e. ltb n e.sequence) es ≡ drop m es
  unfolding keep
  keep_numbered zero n k es h q = keep_later n k es h (omega arith)
  keep_numbered (suc m) n k [] h q = refl
  keep_numbered (suc m) n k (e ∷ es) h q =
      ground (arith, h.0, keep_numbered m n (suc k) es h.1 (omega arith))

  IsNumbered-drop :
      (n k : ℕ) (es : List (StoredEvent P)) → IsNumbered k es → (m : ℕ) × IsNumbered m (drop n es)
  IsNumbered-drop zero k es h = (k, h)
  IsNumbered-drop (suc n) k [] h = (k, tt)
  IsNumbered-drop (suc n) k (e ∷ es) h = IsNumbered-drop n (suc k) es h.1

  -- In a store whose jobs are numbered without a gap, a reader that has the first `n` events of a job
  -- gets exactly the others from `events_after`.
  pub events_after-eq-drop :
      (job : String) (n : ℕ) (s : EventStore P)
      → IsStore s
      → events_after job n none s ≡ drop n (list_events job none s)
  unfolding events_after list_events take_limit
  events_after-eq-drop job n s h =
      let (m, rest) = IsNumbered-drop n 0 (job_events job s) (h.numbered job) in
      rw
        (
          keep_numbered n n 0 (job_events job s) (h.numbered job) (omega arith),
          sort_numbered 0 (job_events job s) (h.numbered job),
        )
        (sort_numbered m (drop n (job_events job s)) rest)
