-- ===== src/TaskGraph/Weight.antt =====
-- The weight of the entries that a search has not seen yet: the measure of the loops of `TaskGraph`.
use hermes_lab.Prelude.{
  ℕ, ◌+◌, ◌≤◌, String, ◌≡◌, some, List, [], ◌∷◌, false, arith, eq_iff, elem, if◌then◌else◌,
}
use hermes_lab.Dict.{Dict, lookup}

module _ {ℓ} {V : Type ℓ} (f : V → ℕ) where
  unfoldable pub weight : List String → Dict V → ℕ
  weight seen [] = 0
  weight seen ((k, v) ∷ d) = (if elem k seen then 0 else f v) + weight seen d

  weight-le : (k : String) (seen : List String) (d : Dict V) → weight (k ∷ seen) d ≤ weight seen d
  unfolding weight elem
  weight-le k seen [] = omega arith
  weight-le k seen ((j, v) ∷ d) = ground (arith, weight-le k seen d)

  -- Seeing an entry takes its own weight away.
  pub weight-seen :
      (k : String) (v : V) (seen : List String) (d : Dict V)
      → lookup k d ≡ some v
      → elem k seen ≡ false
      → weight (k ∷ seen) d + f v ≤ weight seen d
  unfolding weight elem lookup
  weight-seen k v seen [] h new = absurd (cc)
  weight-seen k v seen ((j, w) ∷ d) h new =
      ground (arith, weight-seen k v seen d, weight-le k seen d, eq_iff j k, eq_iff k j)

  pub weight-unseen :
      (k : String) (seen : List String) (d : Dict V) → weight (k ∷ seen) d ≤ weight seen d
  weight-unseen = weight-le
