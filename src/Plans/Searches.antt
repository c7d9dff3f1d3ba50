-- ===== src/Plans/Searches.antt =====
-- runtime/planning/validator.py: the search for cycles comes to an end. Every call paints a task that
-- was not seen, and a painted task stays painted, so the calls within each other are at most as many
-- as the tasks.
use hermes_lab.Prelude.{
  ℕ, zero, suc, ◌≤◌, ◌≡◌, refl, sym, ap, ◌∙◌, inl, inr, String, Option, none, some, List, [], ◌∷◌,
  ◌++◌, Bool, true, false, ◌==◌, if◌then◌else◌, leb, eqb, is_some, Bool-cases, String-cases, all,
  elem, arith, eq_iff,
}
use hermes_lab.Dict.{Dict, insert, keys}
use hermes_lab.Dict.Laws.{lookup-insert}
use hermes_lab.Plans.Cycles.{
  Seen, colour, neighbours, paint, report, go_on, scan, has_cycle, go_on_with, find_cycles,
}

pub colour-insert :
    (k x : String) (c : ℕ) (d : Dict ℕ)
    → colour x (insert k c d) ≡ (if k == x then c else colour x d)
unfolding colour
colour-insert k x c d = ground (arith, lookup-insert k x c d)

-- How many tasks of the list are not seen.
unfoldable pub unseen : List String → Dict ℕ → ℕ
unfolding colour
unseen [] v = 0
unseen (x ∷ xs) v = if eqb (colour x v) 0 then suc (unseen xs v) else unseen xs v

unseen-insert :
    (k : String) (c : ℕ) (v : Dict ℕ) (xs : List String)
    → unseen xs (insert k (suc c) v) ≤ unseen xs v
unfolding unseen
unseen-insert k c v [] = omega arith
unseen-insert k c v (x ∷ xs) = ground (arith, unseen-insert k c v xs, colour-insert k x (suc c) v)

unseen-paint :
    (k : String) (c : ℕ) (v : Dict ℕ) (xs : List String)
    → elem k xs ≡ true
    → colour k v ≡ 0
    → suc (unseen xs (insert k (suc c) v)) ≤ unseen xs v
unfolding unseen elem
unseen-paint k c v [] at new = ground arith
unseen-paint k c v (x ∷ xs) at new = elim (String-cases k x) [
  | inl (same, eq) ↦
      let here : colour x v ≡ 0 = ap (λ y. colour y v) (sym eq) ∙ new in
      ground (arith, unseen-insert k c v xs, colour-insert k x (suc c) v)
  | inr (off, _) ↦
      ground
        (arith, unseen-paint k c v xs, colour-insert k x (suc c) v, off, eq_iff x k, eq_iff k x)
]

unseen-zero :
    (k : String) (v : Dict ℕ) (xs : List String)
    → elem k xs ≡ true
    → colour k v ≡ 0
    → 1 ≤ unseen xs v
unseen-zero k v xs at new = omega (arith, unseen-paint k 0 v xs at new)

module _ (known : List String) where
  -- The search came to an end, with at most `m` tasks not seen.
  unfoldable ends : ℕ → Option (Bool × Seen) → Bool
  unfolding unseen
  ends m none = false
  ends m (some (found, s)) = leb (unseen known s.visited) m

  -- A search of a task that is not seen ends where the fuel is enough.
  abbrev Searches : ℕ → (String → List String → Seen → Option (Bool × Seen)) → Type 0
  unfolding unseen elem ends colour
  Searches n look =
      (x : String) (path : List String) (s : Seen) (m : ℕ)
      → elem x known ≡ true
      → colour x s.visited ≡ 0
      → unseen known s.visited ≤ n
      → unseen known s.visited ≤ m
      → ends m (look x path s) ≡ true

  go_on-ends :
      (n m : ℕ) (r : Option (Bool × Seen)) (next : Seen → Option (Bool × Seen))
      → ends n r ≡ true
      → ends m r ≡ true
      → ((s : Seen)
          → unseen known s.visited ≤ n
          → unseen known s.visited ≤ m
          → ends m (next s) ≡ true)
      → ends m (go_on r next) ≡ true
  unfolding ends go_on
  go_on-ends n m none next a b f = a
  go_on-ends n m (some (true, s)) next a b f = b
  go_on-ends n m (some (false, s)) next a b f = f s (ground (arith, a)) (ground (arith, b))

  scan-ends :
      (n : ℕ) (look : String → List String → Seen → Option (Bool × Seen))
      → Searches n look
      → (curr : String) (path xs : List String) (s : Seen) (m : ℕ)
      → all (λ x. elem x known) xs ≡ true
      → unseen known s.visited ≤ n
      → unseen known s.visited ≤ m
      → ends m (scan look curr path xs s) ≡ true
  unfolding scan all report Searches
  scan-ends n look good curr path [] s m at le le' =
      unfold ends paint in ground (arith, unseen-insert curr 1 s.visited known)
  scan-ends n look good curr path (x ∷ xs) s m at le le' =
      let rest : (s' : Seen)
          → unseen known s'.visited ≤ n
          → unseen known s'.visited ≤ m
          → ends m (scan look curr path xs s') ≡ true =
        λ s'. scan-ends n look good curr path xs s' m (ground (arith, at)) in
      elim (Bool-cases (eqb (colour x s.visited) 1)) [
        | inl e ↦ unfold ends in ground (arith, e, le')
        | inr e ↦ elim (Bool-cases (eqb (colour x s.visited) 0)) [
          | inl e' ↦
              let new : colour x s.visited ≡ 0 = ground (arith, e') in
              let here : elem x known ≡ true = ground (arith, at) in
              ground (
                arith,
                e,
                e',
                go_on-ends n m (look x (path ++ x ∷ []) s) (scan look curr path xs)
                    (good x (path ++ x ∷ []) s n here new le le)
                    (good x (path ++ x ∷ []) s m here new le le') rest,
              )
          | inr e' ↦ ground (arith, e, e', rest s le le')
        ]
      ]

module _ (graph : Dict (List String)) where
  unfoldable pub IsClosed : Type 0
  unfolding elem all neighbours
  IsClosed = (x : String) → all (λ d. elem d (keys graph)) (neighbours graph x) ≡ true

  has_cycle-ends : (n : ℕ) → IsClosed → Searches (keys graph) n (has_cycle n graph)
  unfolding has_cycle Searches IsClosed
  has_cycle-ends zero closed x path s m at new le le' =
      ground (arith, unseen-zero x s.visited (keys graph) at new)
  has_cycle-ends (suc n) closed x path s m at new le le' =
      let less = unseen-paint x 0 s.visited (keys graph) at new in
      scan-ends (keys graph) n (has_cycle n graph) (has_cycle-ends n closed) x path
        (neighbours graph x) (paint x 1 s) m (closed x) (unfold paint in ground (arith, less))
        (unfold paint in ground (arith, less))

  go_on_with-some :
      (n : ℕ) (r : Option (Bool × Seen)) (next : Seen → Option Seen)
      → ends (keys graph) n r ≡ true
      → ((s : Seen) → unseen (keys graph) s.visited ≤ n → is_some (next s) ≡ true)
      → is_some (go_on_with r next) ≡ true
  unfolding ends go_on_with
  go_on_with-some n none next e f = ground (arith, e)
  go_on_with-some n (some (found, s)) next e f = f s (ground (arith, e))

  pub find_cycles-some :
      (n : ℕ)
      → IsClosed
      → (xs : List String) (s : Seen) → all (λ x. elem x (keys graph)) xs ≡ true
      → unseen (keys graph) s.visited ≤ n
      → is_some (find_cycles n graph xs s) ≡ true
  unfolding find_cycles all Searches
  find_cycles-some n closed [] s at le = refl
  find_cycles-some n closed (x ∷ xs) s at le =
      let rest : (s' : Seen)
          → unseen (keys graph) s'.visited ≤ n
          → is_some (find_cycles n graph xs s') ≡ true =
        λ s'. find_cycles-some n closed xs s' (ground (arith, at)) in
      elim (Bool-cases (eqb (colour x s.visited) 0)) [
        | inl e ↦
            let new : colour x s.visited ≡ 0 = ground (arith, e) in
            let here : elem x (keys graph) ≡ true = ground (arith, at) in
            ground (
              arith,
              e,
              go_on_with-some n (has_cycle n graph x (x ∷ []) s) (find_cycles n graph xs)
                  (has_cycle-ends n closed x (x ∷ []) s n here new le le) rest,
            )
        | inr e ↦ ground (arith, e, rest s le)
      ]
