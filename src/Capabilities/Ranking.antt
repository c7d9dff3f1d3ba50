-- ===== src/Capabilities/Ranking.antt =====
-- capabilities/capabilities.py: which of the actors that can do a task is selected.
use mathlib.Core.Path.{subst}
use hermes_lab.Prelude.{
  none, some, Option-cases, ℕ, ◌≤◌, ◌≡◌, refl, sym, ap, ◌∙◌, inl, inr, String, List, [], ◌∷◌, Bool,
  true, false, not, ◌==◌, ◌&&◌, ◌||◌, leb, Bool-cases, any, all, keep, elem, arith, eq_refl,
}
use hermes_lab.Dict.{Dict, has, keys, lookup}
use hermes_lab.Capabilities.Defs.{
  Profile, attribute_id, CapabilityRegistry, Ranked, Search, Decision, no_match, selected, before,
  insert_ranked, sort_ranked, is_eligible, ranked_of, gather, find_actors, cleaned, decide,
  select_actor, is_available, get_actor_capabilities,
}
use hermes_lab.Capabilities.Eligible.{lists, find_actors_iff}

-- No actor of the list costs less.
abbrev at_least : ℕ → List Ranked → Bool
unfolding all
at_least c = all (λ b. leb c b.cost)

abbrev is_sorted : List Ranked → Bool
unfolding all
is_sorted [] = true
is_sorted (a ∷ rest) = at_least a.cost rest && is_sorted rest

abbrev is_empty : List Ranked → Bool
is_empty [] = true
is_empty (a ∷ rest) = false

at_least-insert_ranked :
    (c : ℕ) (a : Ranked) (xs : List Ranked)
    → at_least c (insert_ranked a xs) ≡ (leb c a.cost && at_least c xs)
unfolding at_least all insert_ranked
at_least-insert_ranked c a [] = refl
at_least-insert_ranked c a (b ∷ bs) = ground (arith, at_least-insert_ranked c a bs)

at_least-sort_ranked : (c : ℕ) (xs : List Ranked) → at_least c (sort_ranked xs) ≡ at_least c xs
unfolding at_least all sort_ranked
at_least-sort_ranked c [] = refl
at_least-sort_ranked c (a ∷ xs) =
    at_least-insert_ranked c a (sort_ranked xs)
    ∙ ap (λ b. leb c a.cost && b) (at_least-sort_ranked c xs)

at_least-weaken : (c d : ℕ) (xs : List Ranked) → d ≤ c → at_least c xs ≡ true → at_least d xs ≡ true
unfolding at_least all
at_least-weaken c d [] le e = refl
at_least-weaken c d (a ∷ xs) le e = ground (arith, at_least-weaken c d xs le)

insert_ranked-sorted :
    (a : Ranked) (xs : List Ranked) → is_sorted xs ≡ true → is_sorted (insert_ranked a xs) ≡ true
unfolding is_sorted at_least all insert_ranked before
insert_ranked-sorted a [] e = refl
insert_ranked-sorted a (b ∷ bs) e = ground (
  arith,
  at_least-weaken b.cost a.cost bs,
  at_least-insert_ranked b.cost a bs,
  insert_ranked-sorted a bs,
)

sort_ranked-sorted : (xs : List Ranked) → is_sorted (sort_ranked xs) ≡ true
unfolding is_sorted sort_ranked
sort_ranked-sorted [] = refl
sort_ranked-sorted (a ∷ xs) = insert_ranked-sorted a (sort_ranked xs) (sort_ranked-sorted xs)

is_empty-insert_ranked : (a : Ranked) (xs : List Ranked) → is_empty (insert_ranked a xs) ≡ false
unfolding insert_ranked
is_empty-insert_ranked a [] = refl
is_empty-insert_ranked a (b ∷ bs) = ground arith

is_empty-sort_ranked : (xs : List Ranked) → is_empty (sort_ranked xs) ≡ is_empty xs
unfolding sort_ranked
is_empty-sort_ranked [] = refl
is_empty-sort_ranked (a ∷ xs) = is_empty-insert_ranked a (sort_ranked xs)

module _ (strip : String → String) (defaults : Dict (List String)) where
  -- An independent test of a decision: the selected actor is registered and can do the task, and
  -- no registered actor that can do it costs less; nobody is selected where nobody can do it.
  abbrev best_among : (String → Bool) → (String → ℕ) → CapabilityRegistry → Decision → Bool
  unfolding any all
  best_among can cost_of r (no_match _) = not (any can (keys r.actors))
  best_among can cost_of r (selected id cost _) =
      (has id r.actors && can id)
      && all (λ other. not (can other) || leb cost (cost_of other)) (keys r.actors)

  unfoldable pub is_best : Search → CapabilityRegistry → Decision → Bool
  unfolding best_among
  is_best q r =
      best_among (is_eligible strip defaults q r) (λ id. (ranked_of strip defaults q r id).cost) r

  is_empty-gather :
      (q : Search) (r : CapabilityRegistry) (ids : List String)
      → is_empty (gather strip defaults q r ids) ≡ not (any (is_eligible strip defaults q r) ids)
  unfolding gather any
  is_empty-gather q r [] = refl
  is_empty-gather q r (x ∷ xs) = ground (arith, is_empty-gather q r xs)

  at_least-gather :
      (q : Search) (r : CapabilityRegistry) (c : ℕ) (ids : List String)
      → at_least c (gather strip defaults q r ids)
        ≡ all
            (λ other.
              not (is_eligible strip defaults q r other)
              || leb c (ranked_of strip defaults q r other).cost)
            ids
  unfolding gather all at_least
  at_least-gather q r c [] = refl
  at_least-gather q r c (x ∷ xs) = elim (Bool-cases (is_eligible strip defaults q r x)) [
    | inl e ↦ ground (arith, at_least-gather q r c xs, e)
    | inr e ↦ ground (arith, at_least-gather q r c xs, e)
  ]

  -- The head of the found actors is one of them.
  head-found :
      (q : Search) (r : CapabilityRegistry) (a : Ranked) (rest : List Ranked)
      → find_actors strip defaults q r ≡ a ∷ rest
      → (has a.actor_id r.actors && is_eligible strip defaults q r a.actor_id) ≡ true
  unfolding lists any
  head-found q r a rest e =
      sym (find_actors_iff strip defaults q r a.actor_id)
      ∙ ap (lists a.actor_id) e
      ∙ ground (arith, eq_refl a.actor_id)

  -- The head of the found actors costs least.
  head-cheapest :
      (q : Search) (r : CapabilityRegistry) (a : Ranked) (rest : List Ranked)
      → find_actors strip defaults q r ≡ a ∷ rest
      → at_least a.cost (gather strip defaults q r (keys r.actors)) ≡ true
  unfolding find_actors at_least all is_sorted
  head-cheapest q r a rest e =
      let found = gather strip defaults q r (keys r.actors) in
      let sorted : is_sorted (a ∷ rest) ≡ true = ap is_sorted (sym e) ∙ sort_ranked-sorted found in
      sym (at_least-sort_ranked a.cost found) ∙ ap (at_least a.cost) e ∙ ground arith

  -- Every registered profile is an object with an `id`, not a dict.
  abbrev pub AreObjects : CapabilityRegistry → Type 0
  AreObjects r = (id : String) (p : Profile) → lookup id r.actors ≡ some p → p.dict_text ≡ none

  attribute_id-same :
      (r : CapabilityRegistry)
      → AreObjects r
      → (id : String) → attribute_id strip defaults (lookup id r.actors) id ≡ id
  attribute_id-same r objects id = elim (Option-cases (lookup id r.actors)) [
    | inl e ↦ ground (arith, e)
    | inr (p, e) ↦ ground (arith, e, objects id p e)
  ]

  decide-best :
      (q : Search) (r : CapabilityRegistry) (required : List String) (xs : List Ranked)
      → AreObjects r
      → find_actors strip defaults q r ≡ xs
      → is_best q r (decide strip defaults r required xs) ≡ true
  unfolding is_best best_among find_actors decide
  decide-best q r required [] objects e =
      sym (is_empty-gather q r (keys r.actors))
      ∙ sym (is_empty-sort_ranked (gather strip defaults q r (keys r.actors)))
      ∙ ap is_empty e
  decide-best q r required (a ∷ rest) objects e =
      subst (λ id. is_best q r (selected id a.cost a.matched) ≡ true)
        (sym (attribute_id-same r objects a.actor_id))
        (ground (
          arith,
          head-found q r a rest e,
          sym (at_least-gather q r a.cost (keys r.actors)) ∙ head-cheapest q r a rest e,
        ))

  cleaned-cleaned :
      ((s : String) → strip (strip s) ≡ strip s)
      → (xs : List String)
      → cleaned strip defaults (cleaned strip defaults xs) ≡ cleaned strip defaults xs
  unfolding cleaned keep
  cleaned-cleaned idem [] = refl
  cleaned-cleaned idem (x ∷ xs) = elim (Bool-cases (strip x == "")) [
    | inl e ↦ ground (arith, idem x, cleaned-cleaned idem xs, e)
    | inr e ↦ ground (arith, idem x, cleaned-cleaned idem xs, e)
  ]

  is_eligible-cleaned :
      ((s : String) → strip (strip s) ≡ strip s)
      → (q : Search) (r : CapabilityRegistry)
      → is_eligible strip defaults (record q { required = cleaned strip defaults q.required }) r
        ≡ is_eligible strip defaults q r
  unfolding is_eligible all elem
  is_eligible-cleaned idem q r =
      ap
        (λ required id.
          is_available strip defaults q.available id
          && not (elem id (cleaned strip defaults q.excluded))
          && all (λ c. elem c (get_actor_capabilities strip defaults id r)) required)
        (cleaned-cleaned idem q.required)

  -- `select_actor`, whatever it returns: a selected actor is registered, is available where that is
  -- asked for, is not excluded, has every required capability and costs least of such actors; no
  -- match is returned only where there is no such actor. No registered profile is a dict, and `strip`
  -- is idempotent.
  pub select_actor-best :
      ((s : String) → strip (strip s) ≡ strip s)
      → (q : Search) (r : CapabilityRegistry) → AreObjects r
      → is_best q r (select_actor strip defaults q r) ≡ true
  unfolding select_actor is_best best_among ranked_of
  select_actor-best idem q r objects =
      let required = cleaned strip defaults q.required in
      let q' : Search = record q { required = required } in
      let found = find_actors strip defaults q' r in
      ap
        (λ can.
          best_among can (λ id. (ranked_of strip defaults q r id).cost) r
            (decide strip defaults r required found))
        (sym (is_eligible-cleaned idem q r))
      ∙ decide-best q' r required found objects refl
