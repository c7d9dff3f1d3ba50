-- ===== src/Plans/Lists.antt =====
-- Lists of tasks and of problems.
use hermes_lab.Prelude.{
  ◌≡◌, refl, String, List, [], ◌∷◌, ◌++◌, Bool, true, ◌&&◌, all, elem, arith, eq_refl,
}
use hermes_lab.Plans.Defs.{Problem, is_nil}

pub elem_weaken :
    (y : String) (zs xs : List String)
    → all (λ x. elem x zs) xs ≡ true
    → all (λ x. elem x (y ∷ zs)) xs ≡ true
unfolding all elem
elem_weaken y zs [] h = refl
elem_weaken y zs (x ∷ xs) h = ground (arith, elem_weaken y zs xs)

pub elem_self : (xs : List String) → all (λ x. elem x xs) xs ≡ true
unfolding all elem
elem_self [] = refl
elem_self (x ∷ xs) = ground (arith, eq_refl x, elem_weaken x xs xs (elem_self xs))

pub all-imp :
    (p q : String → Bool)
    → ((x : String) → p x ≡ true → q x ≡ true)
    → (xs : List String) → all p xs ≡ true
    → all q xs ≡ true
unfolding all
all-imp p q f [] h = refl
all-imp p q f (x ∷ xs) h = ground (arith, f x, all-imp p q f xs)

pub is_nil-append : (xs ys : List Problem) → is_nil (xs ++ ys) ≡ (is_nil xs && is_nil ys)
is_nil-append [] ys = refl
is_nil-append (x ∷ xs) ys = refl
