-- ===== src/Dict/Defs.antt =====
use hermes_lab.Prelude.{
  String, Option, none, some, List, [], ◌∷◌, Bool, ◌==◌, if◌then◌else◌, is_some, map,
}

abbrev pub Dict {ℓ} : Type ℓ → Type ℓ
Dict V = List (String × V)

module _ {ℓ} {V : Type ℓ} where
  -- d.get(k)
  unfoldable pub lookup : String → Dict V → Option V
  lookup k [] = none
  lookup k ((j, v) ∷ d) = if j == k then some v else lookup k d

  -- k in d
  abbrev pub has : String → Dict V → Bool
  has k d = is_some (lookup k d)

  -- d[k] = v: an existing entry keeps its place
  unfoldable pub insert : String → V → Dict V → Dict V
  insert k v [] = (k, v) ∷ []
  insert k v ((j, w) ∷ d) = if j == k then (k, v) ∷ d else (j, w) ∷ insert k v d

  -- an object that the dict holds is mutated in place
  unfoldable pub modify : String → (V → V) → Dict V → Dict V
  modify k f [] = []
  modify k f ((j, w) ∷ d) = if j == k then (j, f w) ∷ d else (j, w) ∷ modify k f d

  -- d.pop(k, None)
  unfoldable pub remove : String → Dict V → Dict V
  remove k [] = []
  remove k ((j, w) ∷ d) = let rest = remove k d in if j == k then rest else (j, w) ∷ rest

  -- d.values()
  abbrev pub values : Dict V → List V
  values = map (λ (e : String × V). e.1)

  -- d.keys()
  abbrev pub keys : Dict V → List String
  keys = map (λ (e : String × V). e.0)
