-- ===== src/Scheduler/Choice.antt =====
-- What `find_alternative_actor` answers.
use hermes_lab.Prelude.{
  sym, ap, ◌∙◌, ℕ, String, ◌≡◌, refl, Option, some, List, [], ◌∷◌, Bool, true, false, arith,
  eq_refl, elem, Bool-cases, inl, inr,
}
use hermes_lab.Capacity.{get_or}
use hermes_lab.Scheduler.Routing.{Services, usable, find_alternative_actor}

module _ (low_tokens low_requests : ℕ → ℕ → Bool) (now : ℕ) (excluded : List String) where
  abbrev asked : String → Services → Services × Bool
  asked = usable low_tokens low_requests now

  abbrev find : List String → Services → Services × Option String
  find = find_alternative_actor low_tokens low_requests now excluded

  skipped :
      (a : String) (ranked : List String) (v : Services)
      → elem a excluded ≡ true
      → find (a ∷ ranked) v ≡ find ranked v
  unfolding find_alternative_actor
  skipped a ranked v e = rw e refl

  passed_over :
      (a : String) (ranked : List String) (v : Services)
      → elem a excluded ≡ false
      → (asked a v).1 ≡ false
      → find (a ∷ ranked) v ≡ find ranked (asked a v).0
  unfolding find_alternative_actor
  passed_over a ranked v e f = rw (e, f) refl

  chosen :
      (a : String) (ranked : List String) (v : Services)
      → elem a excluded ≡ false
      → (asked a v).1 ≡ true
      → find (a ∷ ranked) v ≡ ((asked a v).0, some a)
  unfolding find_alternative_actor
  chosen a ranked v e f = rw (e, f) refl

  -- An alternative is one of the capable actors, is not excluded, and passed the tests on its breaker,
  -- its provider and its soft capacity, in the state of the registries when it was asked, which the
  -- answer leaves behind.
  pub find_alternative_actor_sound :
      (ranked : List String) (v w : Services) (actor : String)
      → find_alternative_actor low_tokens low_requests now excluded ranked v ≡ (w, some actor)
      → (elem actor ranked ≡ true)
        × (elem actor excluded ≡ false)
        × ((before : Services) × (usable low_tokens low_requests now actor before ≡ (w, true)))
  unfolding find_alternative_actor elem
  find_alternative_actor_sound [] v w actor h = ground (arith, h)
  find_alternative_actor_sound (a ∷ ranked) v w actor h = elim (Bool-cases (elem a excluded)) [
    | inl e ↦
        let (in_ranked, allowed, passed) =
          find_alternative_actor_sound ranked v w actor (sym (skipped a ranked v e) ∙ h) in
        (ground (arith, in_ranked), allowed, passed)
    | inr e ↦ elim (Bool-cases (asked a v).1) [
      | inl f ↦
          let same = sym (chosen a ranked v e f) ∙ h in
          let named = ap (λ (x : Services × Option String). get_or a x.1) same in
          (
            ground (arith, named, eq_refl a),
            rw (sym named) e,
            (v, rw (sym named) (λ i. ((ap (λ (x : Services × Option String). x.0) same) i, f i))),
          )
      | inr f ↦
          let (in_ranked, allowed, passed) =
            find_alternative_actor_sound ranked (asked a v).0 w actor
              (sym (passed_over a ranked v e f) ∙ h) in
          (ground (arith, in_ranked), allowed, passed)
    ]
  ]
