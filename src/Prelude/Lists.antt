-- ===== src/Prelude/Lists.antt =====
-- Lists over the native numbers, with tests that run.
use Prim.Native.Nat.{ℕ, zero, suc, ◌+◌, ◌≤◌}
use Prim.Native.String.{String}
use mathlib.Core.Path.{◌≡◌, refl}
use mathlib.Core.Bool.{Bool, true, false, ◌&&◌, ◌||◌}
use mathlib.Core.List.{List, [], ◌∷◌, ◌++◌}
use native.Mathlib.Omega.{arith}
use text.Mathlib.Text.{◌==◌}
use text.Mathlib.TextEquality.{eq_iff}
use hermes_lab.Prelude.Tests.{if◌then◌else◌, leb}

module _ {ℓ} {A : Type ℓ} where
  abbrev pub length : List A → ℕ
  length [] = 0
  length (x ∷ xs) = suc (length xs)

  pub length-append : (xs ys : List A) → length (xs ++ ys) ≡ length xs + length ys
  length-append [] ys = omega arith
  length-append (x ∷ xs) ys = omega (arith, length-append xs ys)

  abbrev pub take : ℕ → List A → List A
  take zero xs = []
  take (suc n) [] = []
  take (suc n) (x ∷ xs) = x ∷ take n xs

  abbrev pub drop : ℕ → List A → List A
  drop zero xs = xs
  drop (suc n) [] = []
  drop (suc n) (x ∷ xs) = drop n xs

  unfoldable pub any : (A → Bool) → List A → Bool
  any p [] = false
  any p (x ∷ xs) = p x || any p xs

  unfoldable pub all : (A → Bool) → List A → Bool
  all p [] = true
  all p (x ∷ xs) = p x && all p xs

  unfoldable pub keep : (A → Bool) → List A → List A
  keep p [] = []
  keep p (x ∷ xs) = let rest = keep p xs in if p x then x ∷ rest else rest

  pub length-keep : (p : A → Bool) (xs : List A) → length (keep p xs) ≤ length xs
  unfolding keep
  length-keep p [] = omega arith
  length-keep p (x ∷ xs) = ground (arith, length-keep p xs)

  -- `sorted(xs, key=key)`, which is stable
  abbrev pub insert_by : (A → ℕ) → A → List A → List A
  insert_by key x [] = x ∷ []
  insert_by key x (y ∷ ys) = if leb (key x) (key y) then x ∷ y ∷ ys else y ∷ insert_by key x ys

  unfoldable pub sort_by : (A → ℕ) → List A → List A
  sort_by key [] = []
  sort_by key (x ∷ xs) = insert_by key x (sort_by key xs)

-- `x in xs` on texts.
unfoldable pub elem : String → List String → Bool
elem s [] = false
elem s (x ∷ xs) = x == s || elem s xs

pub elem-append : (s : String) (xs ys : List String) → elem s (xs ++ ys) ≡ (elem s xs || elem s ys)
unfolding elem
elem-append s [] ys = refl
elem-append s (x ∷ xs) ys = ground (arith, elem-append s xs ys)

pub elem-keep :
    (p : String → Bool) (s : String) (xs : List String) → elem s (keep p xs) ≡ (elem s xs && p s)
unfolding elem keep
elem-keep p s [] = refl
elem-keep p s (x ∷ xs) = ground (arith, elem-keep p s xs, eq_iff x s)

module _ {ℓ} {A : Type ℓ} (p : A → Bool) (key : A → ℕ) where
  any-insert_by : (x : A) (xs : List A) → any p (insert_by key x xs) ≡ (p x || any p xs)
  unfolding any
  any-insert_by x [] = refl
  any-insert_by x (y ∷ ys) = ground (arith, any-insert_by x ys)

  pub any-sort_by : (xs : List A) → any p (sort_by key xs) ≡ any p xs
  unfolding sort_by any
  any-sort_by [] = refl
  any-sort_by (x ∷ xs) = rw (any-insert_by x (sort_by key xs), any-sort_by xs) refl
