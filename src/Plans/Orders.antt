-- ===== src/Plans/Orders.antt =====
-- runtime/planning/validator.py: what the search for cycles finds out. While no cycle is reported, the
-- tasks that are done can be listed so that each comes before the tasks that it depends on.
use mathlib.Core.Path.{subst}
use hermes_lab.Prelude.{
  ℕ, zero, suc, ◌≡◌, sym, inl, inr, String, Option, none, some, List, [], ◌∷◌, ◌++◌, Bool, true,
  false, not, ◌==◌, ◌&&◌, ◌||◌, leb, eqb, Bool-cases, all, elem, arith, eq_iff, eq_refl,
}
use hermes_lab.Dict.{Dict}
use hermes_lab.Plans.Defs.{cycle, is_nil}
use hermes_lab.Plans.Lists.{elem_self, all-imp, is_nil-append}
use hermes_lab.Plans.Searches.{colour-insert}
use hermes_lab.Plans.Cycles.{Seen, colour, neighbours, paint, report, go_on, scan, has_cycle}

-- Each task comes once, and before the tasks that it depends on.
unfoldable pub is_order : (String → List String) → List String → Bool
unfolding all elem
is_order deps [] = true
is_order deps (x ∷ xs) = all (λ d. elem d xs) (deps x) && not (elem x xs) && is_order deps xs

pub is_nil-report : (path : List String) (s : Seen) → is_nil (report path s).cycles ≡ false
unfolding report
is_nil-report path s = ground (arith, is_nil-append s.cycles (cycle path ∷ []))

module _ (look : String → List String → Seen → Option (Bool × Seen)) (curr : String)
    (path : List String) (x : String) (xs : List String) (s : Seen) where
  scan_grey :
      eqb (colour x s.visited) 1 ≡ true
      → scan look curr path (x ∷ xs) s ≡ some (true, report (path ++ x ∷ []) s)
  unfolding scan
  scan_grey e = ground (arith, e)

  scan_new :
      eqb (colour x s.visited) 0 ≡ true
      → scan look curr path (x ∷ xs) s ≡ go_on (look x (path ++ x ∷ []) s) (scan look curr path xs)
  unfolding scan
  scan_new e = ground (arith, e)

  scan_done :
      eqb (colour x s.visited) 1 ≡ false
      → eqb (colour x s.visited) 0 ≡ false
      → scan look curr path (x ∷ xs) s ≡ scan look curr path xs s
  unfolding scan
  scan_done e e' = ground (arith, e, e')

module _ (graph : Dict (List String)) where
  -- The tasks that are done are those of the list.
  pub record Holds (s : Seen) (order : List String) : Type 0 where
    pub bounded : (x : String) → leb (colour x s.visited) 2 ≡ true
    pub done : (x : String) → eqb (colour x s.visited) 2 ≡ elem x order
    pub sorted : is_order (neighbours graph) order ≡ true

  -- A search of `x` that found no cycle.
  pub record Found (s s' : Seen) (order : List String) (x : String) : Type 0 where
    pub next : List String
    pub holds : Holds s' next
    pub more : (y : String) → elem y order ≡ true → elem y next ≡ true
    pub got : elem x next ≡ true
    pub greys :
        (y : String) → eqb (colour y s'.visited) 1 ≡ (eqb (colour y s.visited) 1 && not (y == x))

  abbrev pub After : Seen → List String → String → Option (Bool × Seen) → Type 0
  After s order x none = Unit
  After s order x (some (true, s')) = is_nil s'.cycles ≡ false
  After s order x (some (false, s')) = Found s s' order x

  unfoldable pub Good : (String → List String → Seen → Option (Bool × Seen)) → Type 0
  unfolding colour
  Good look =
      (x : String) (path : List String) (s : Seen) (order : List String)
      → Holds s order
      → colour x s.visited ≡ 0
      → After s order x (look x path s)

  -- The end of the loop over the neighbours: the task is done.
  paint-Found :
      (curr : String) (s : Seen) (order : List String)
      → Holds s order
      → eqb (colour curr s.visited) 1 ≡ true
      → all (λ d. elem d order) (neighbours graph curr) ≡ true
      → Found s (paint curr 2 s) order curr
  unfolding paint elem is_order
  paint-Found curr s order h grey at = record {
    next = curr ∷ order;
    holds = record {
      bounded = λ x. ground (arith, colour-insert curr x 2 s.visited, h.bounded x);
      done = λ x. ground (arith, colour-insert curr x 2 s.visited, h.done x);
      sorted = ground (arith, h.done curr, grey, at, h.sorted);
    };
    more = λ y e. ground (arith, e);
    got = ground (arith, eq_refl curr);
    greys = λ y. ground (arith, colour-insert curr y 2 s.visited, eq_iff curr y, eq_iff y curr);
  }

  -- The start of a search: the task is on the path.
  paint-Holds :
      (curr : String) (s : Seen) (order : List String)
      → Holds s order
      → colour curr s.visited ≡ 0
      → Holds (paint curr 1 s) order
  unfolding paint
  paint-Holds curr s order h new = record {
    bounded = λ x. ground (arith, colour-insert curr x 1 s.visited, h.bounded x);
    done =
        λ x. ground (arith, colour-insert curr x 1 s.visited, h.done x, h.done curr, eq_iff curr x);
    sorted = h.sorted;
  }

  -- Two searches after each other: of a neighbour, then of the rest.
  Found-trans :
      (s s' s'' : Seen) (order : List String) (x curr : String) (f : Found s s' order x)
      → colour x s.visited ≡ 0
      → Found s' s'' f.next curr
      → Found s s'' order curr
  Found-trans s s' s'' order x curr f new g = record {
    next = g.next;
    holds = g.holds;
    more = λ y e. g.more y (f.more y e);
    got = g.got;
    greys = λ y. ground (arith, f.greys y, g.greys y, eq_iff y x, new);
  }

  After-trans :
      (s s' : Seen) (order : List String) (x curr : String) (f : Found s s' order x)
      → colour x s.visited ≡ 0
      → (r : Option (Bool × Seen)) → After s' f.next curr r
      → After s order curr r
  After-trans s s' order x curr f new none a = a
  After-trans s s' order x curr f new (some (true, s'')) a = a
  After-trans s s' order x curr f new (some (false, s'')) a =
      Found-trans s s' s'' order x curr f new a

  go_on-After :
      (s : Seen) (order : List String) (x curr : String) (r : Option (Bool × Seen))
      (next : Seen → Option (Bool × Seen))
      → colour x s.visited ≡ 0
      → After s order x r
      → ((s' : Seen) (f : Found s s' order x) → After s' f.next curr (next s'))
      → After s order curr (go_on r next)
  unfolding go_on
  go_on-After s order x curr none next new a f = a
  go_on-After s order x curr (some (true, s')) next new a f = a
  go_on-After s order x curr (some (false, s')) next new a f =
      After-trans s s' order x curr a new (next s') (f s' a)

  scan-After :
      (look : String → List String → Seen → Option (Bool × Seen))
      → Good look
      → (curr : String) (path xs : List String) (s : Seen) (order : List String) → Holds s order
      → eqb (colour curr s.visited) 1 ≡ true
      → all (λ d. elem d order || elem d xs) (neighbours graph curr) ≡ true
      → After s order curr (scan look curr path xs s)
  unfolding scan Good elem
  scan-After look good curr path [] s order h grey at = paint-Found curr s order h grey (
      all-imp (λ d. elem d order || false) (λ d. elem d order) (λ d e. ground (arith, e))
        (neighbours graph curr) at)
  scan-After look good curr path (x ∷ xs) s order h grey at =
      let p = path ++ x ∷ [] in
      let rest : (s' : Seen) (order' : List String)
          → Holds s' order'
          → eqb (colour curr s'.visited) 1 ≡ true
          → ((y : String) → elem y order ≡ true → elem y order' ≡ true)
          → elem x order' ≡ true
          → After s' order' curr (scan look curr path xs s') =
        λ s' order' h' grey' more got. scan-After look good curr path xs s' order' h' grey' (
          all-imp (λ d. elem d order || elem d (x ∷ xs)) (λ d. elem d order' || elem d xs)
            (λ d e. ground (arith, e, more d, got, eq_iff x d)) (neighbours graph curr) at) in
      elim (Bool-cases (eqb (colour x s.visited) 1)) [
        | inl e ↦
            subst (After s order curr) (sym (scan_grey look curr path x xs s e)) (is_nil-report p s)
        | inr e ↦ elim (Bool-cases (eqb (colour x s.visited) 0)) [
          | inl e' ↦
              let new : colour x s.visited ≡ 0 = ground (arith, e') in
              subst (After s order curr) (sym (scan_new look curr path x xs s e')) (
                go_on-After s order x curr (look x p s) (scan look curr path xs) new
                  (good x p s order h new)
                  (λ s' f.
                    rest s' f.next f.holds (ground (arith, f.greys curr, grey, new, eq_iff curr x))
                      f.more f.got))
          | inr e' ↦
              subst (After s order curr) (sym (scan_done look curr path x xs s e e')) (
                rest s order h grey (λ y here. here) (ground (arith, e, e', h.bounded x, h.done x)))
        ]
      ]

  After-paint :
      (s : Seen) (order : List String) (x : String)
      → colour x s.visited ≡ 0
      → (r : Option (Bool × Seen)) → After (paint x 1 s) order x r
      → After s order x r
  After-paint s order x new none a = a
  After-paint s order x new (some (true, s')) a = a
  After-paint s order x new (some (false, s')) f = record {
    next = f.next;
    holds = f.holds;
    more = f.more;
    got = f.got;
    greys = λ y.
        unfold paint in
        ground (arith, f.greys y, colour-insert x y 1 s.visited, eq_iff x y, eq_iff y x, new);
  }

  pub has_cycle-Good : (n : ℕ) → Good (has_cycle n graph)
  unfolding has_cycle Good
  has_cycle-Good zero x path s order h new = tt
  has_cycle-Good (suc n) x path s order h new =
      let deps = neighbours graph x in
      After-paint s order x new (has_cycle (suc n) graph x path s) (
        scan-After (has_cycle n graph) (has_cycle-Good n) x path deps (paint x 1 s) order
          (paint-Holds x s order h new)
          (unfold paint in ground (arith, colour-insert x x 1 s.visited, eq_refl x))
          (all-imp (λ d. elem d deps) (λ d. elem d order || elem d deps) (λ d e. ground (arith, e))
            deps (elem_self deps)))
