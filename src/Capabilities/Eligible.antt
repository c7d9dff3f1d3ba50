-- ===== src/Capabilities/Eligible.antt =====
-- capabilities/capabilities.py: who is found.
use hermes_lab.Prelude.{
  ◌≡◌, refl, ap, ◌∙◌, inl, inr, String, List, [], ◌∷◌, Bool, ◌==◌, ◌&&◌, ◌||◌, Bool-cases,
  String-cases, any, elem, arith, eq_iff, eq_refl,
}
use hermes_lab.Dict.{Dict, has, keys}
use hermes_lab.Dict.Laws.{elem-keys}
use hermes_lab.Capabilities.Defs.{
  CapabilityRegistry, Ranked, Search, insert_ranked, sort_ranked, is_eligible, ranked_of, gather,
  find_actors,
}

-- The actor is in the list.
unfoldable pub lists : String → List Ranked → Bool
unfolding any
lists id = any (λ a. a.actor_id == id)

lists-insert_ranked :
    (id : String) (a : Ranked) (xs : List Ranked)
    → lists id (insert_ranked a xs) ≡ (a.actor_id == id || lists id xs)
unfolding lists any insert_ranked
lists-insert_ranked id a [] = refl
lists-insert_ranked id a (b ∷ bs) = ground (arith, lists-insert_ranked id a bs)

pub lists-sort_ranked : (id : String) (xs : List Ranked) → lists id (sort_ranked xs) ≡ lists id xs
unfolding sort_ranked lists any
lists-sort_ranked id [] = refl
lists-sort_ranked id (a ∷ xs) =
    lists-insert_ranked id a (sort_ranked xs)
    ∙ ap (λ b. a.actor_id == id || b) (lists-sort_ranked id xs)

module _ (strip : String → String) (defaults : Dict (List String)) (q : Search)
    (r : CapabilityRegistry) where
  lists-gather :
      (id : String) (ids : List String)
      → lists id (gather strip defaults q r ids)
        ≡ (elem id ids && is_eligible strip defaults q r id)
  unfolding gather lists any elem ranked_of
  lists-gather id [] = refl
  lists-gather id (x ∷ xs) = elim (String-cases x id) [
    | inl (at, same) ↦ elim (Bool-cases (is_eligible strip defaults q r x)) [
      | inl e ↦ ground (arith, lists-gather id xs, eq_iff x id, eq_refl id, e)
      | inr e ↦ ground (arith, lists-gather id xs, eq_iff x id, eq_refl id, e)
    ]
    | inr (off, _) ↦ ground (arith, lists-gather id xs, off)
  ]

  -- `find_actors` lists exactly the actors that are registered, are available where that is asked
  -- for, are not excluded, and have every required capability.
  pub find_actors_iff :
      (id : String)
      → lists id (find_actors strip defaults q r)
        ≡ (has id r.actors && is_eligible strip defaults q r id)
  unfolding find_actors
  find_actors_iff id =
      lists-sort_ranked id (gather strip defaults q r (keys r.actors))
      ∙ lists-gather id (keys r.actors)
      ∙ ap (λ b. b && is_eligible strip defaults q r id) (elem-keys id r.actors)
