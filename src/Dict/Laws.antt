-- ===== src/Dict/Laws.antt =====
-- The laws of the dict operations, in `if` form.
use mathlib.Core.Option
use hermes_lab.Prelude.{
  String, ◌≡◌, refl, none, some, [], ◌∷◌, arith, ◌==◌, eq_iff, if◌then◌else◌, length, ◌+◌, ◌≤◌,
  false, elem,
}
use hermes_lab.Dict.Defs.{Dict, lookup, has, insert, modify, remove, keys}

module _ {ℓ} {V : Type ℓ} where
  pub lookup-insert :
      (k j : String) (v : V) (d : Dict V)
      → lookup j (insert k v d) ≡ (if k == j then some v else lookup j d)
  unfolding lookup insert
  lookup-insert k j v [] = refl
  lookup-insert k j v ((i, w) ∷ d) =
      ground (arith, eq_iff k j, eq_iff i k, eq_iff i j, lookup-insert k j v d)

  pub lookup-remove :
      (k j : String) (d : Dict V) → lookup j (remove k d) ≡ (if k == j then none else lookup j d)
  unfolding lookup remove
  lookup-remove k j [] = ground arith
  lookup-remove k j ((i, w) ∷ d) =
      ground (arith, eq_iff k j, eq_iff i k, eq_iff i j, lookup-remove k j d)

  pub lookup-modify :
      (k j : String) (f : V → V) (d : Dict V)
      → lookup j (modify k f d) ≡ (if k == j then Option.map f (lookup j d) else lookup j d)
  unfolding lookup modify
  lookup-modify k j f [] = ground arith
  lookup-modify k j f ((i, w) ∷ d) =
      ground (arith, eq_iff k j, eq_iff i k, eq_iff i j, lookup-modify k j f d)

  -- No key stands twice.
  abbrev pub Unique : Dict V → Type 0
  Unique [] = Unit
  Unique ((k, v) ∷ d) = (has k d ≡ false) × Unique d

  pub Unique-insert : (k : String) (v : V) (d : Dict V) → Unique d → Unique (insert k v d)
  unfolding insert lookup
  Unique-insert k v [] h = ground arith
  Unique-insert k v ((i, w) ∷ d) h =
      ground (arith, eq_iff i k, eq_iff k i, lookup-insert k i v d, Unique-insert k v d h.1)

  pub Unique-modify : (k : String) (f : V → V) (d : Dict V) → Unique d → Unique (modify k f d)
  unfolding modify
  Unique-modify k f [] h = h
  Unique-modify k f ((i, w) ∷ d) h = ground (arith, lookup-modify k i f d, Unique-modify k f d h.1)

  pub Unique-remove : (k : String) (d : Dict V) → Unique d → Unique (remove k d)
  unfolding remove
  Unique-remove k [] h = h
  Unique-remove k ((i, w) ∷ d) h = ground (arith, lookup-remove k i d, Unique-remove k d h.1)

  pub length-insert :
      (k : String) (v : V) (d : Dict V)
      → length (insert k v d) ≡ (if has k d then length d else length d + 1)
  unfolding insert lookup
  length-insert k v [] = ground arith
  length-insert k v ((i, w) ∷ d) = ground (arith, length-insert k v d)

  pub length-modify : (k : String) (f : V → V) (d : Dict V) → length (modify k f d) ≡ length d
  unfolding modify
  length-modify k f [] = refl
  length-modify k f ((i, w) ∷ d) = ground (arith, length-modify k f d)

  pub length-remove-le : (k : String) (d : Dict V) → length (remove k d) ≤ length d
  unfolding remove
  length-remove-le k [] = omega arith
  length-remove-le k ((i, w) ∷ d) = ground (arith, length-remove-le k d)

  pub modify-modify :
      (k : String) (f g : V → V) (d : Dict V)
      → modify k f (modify k g d) ≡ modify k (λ v. f (g v)) d
  unfolding modify
  modify-modify k f g [] = refl
  modify-modify k f g ((i, w) ∷ d) = ground (arith, modify-modify k f g d)

  pub modify-id : (k : String) (d : Dict V) → modify k (λ v. v) d ≡ d
  unfolding modify
  modify-id k [] = refl
  modify-id k ((i, w) ∷ d) = ground (arith, modify-id k d)

  pub elem-keys : (k : String) (d : Dict V) → elem k (keys d) ≡ has k d
  unfolding elem lookup
  elem-keys k [] = refl
  elem-keys k ((i, w) ∷ d) = ground (arith, elem-keys k d)
