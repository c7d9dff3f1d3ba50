-- ===== src/Projection/Alike.antt =====
-- When a live graph and a replayed one tell the same of their tasks: all that the runtime decides by.
-- Times agree in being set; texts that Python takes for absent are not told apart. The error of a
-- task, its description and its metadata are left out.
use hermes_lab.Prelude.{
  ◌≡◌, refl, sym, String, none, some, [], ◌∷◌, arith, String-cases, inl, inr, is_some, truthy,
}
use hermes_lab.Dict.{Dict, lookup, insert, modify}
use hermes_lab.Task.{TaskNode}

pub record SameTask (l p : TaskNode) : Type 0 where
  pub status : l.status ≡ p.status
  pub dependencies : l.dependencies ≡ p.dependencies
  pub required_capabilities : l.required_capabilities ≡ p.required_capabilities
  pub assigned_actor : truthy l.assigned_actor ≡ truthy p.assigned_actor
  pub started : is_some l.started_at ≡ is_some p.started_at
  pub ended : is_some l.completed_at ≡ is_some p.completed_at
  pub attempt : l.attempt ≡ p.attempt
  pub max_attempts : l.max_attempts ≡ p.max_attempts
  pub artifact_refs : l.artifact_refs ≡ p.artifact_refs
  pub superseded_by : truthy l.superseded_by ≡ truthy p.superseded_by
  pub supersede_reason : truthy l.supersede_reason ≡ truthy p.supersede_reason

-- The same keys in the same order, with the same said of the tasks under them.
abbrev pub Alike : Dict TaskNode → Dict TaskNode → Type 0
Alike [] [] = Unit
Alike ((k, l) ∷ d) ((j, p) ∷ e) = (k ≡ j) × SameTask l p × Alike d e
Alike d e = ⊥

Same-moved :
    (f g : TaskNode → TaskNode) (t l p : TaskNode)
    → t ≡ l
    → ((q : TaskNode) → SameTask t q → SameTask (f t) (g q))
    → SameTask l p
    → SameTask (f l) (g p)
Same-moved f g t l p it h node = rw (sym it) (h p (rw it node))

pub Alike-modify :
    (k : String) (f g : TaskNode → TaskNode) (t : TaskNode) (d e : Dict TaskNode)
    → lookup k d ≡ some t
    → ((p : TaskNode) → SameTask t p → SameTask (f t) (g p))
    → Alike d e
    → Alike (modify k f d) (modify k g e)
unfolding modify lookup
Alike-modify k f g t [] [] found h a = tt
Alike-modify k f g t ((i, l) ∷ d) ((j, p) ∷ e) found h (same, node, rest) =
    elim (String-cases i k) [
      | inl (at, _) ↦
          let it : t ≡ l = ground (arith, at) in
          rw (sym same, at) (refl, Same-moved f g t l p it h node, rest)
      | inr (off, _) ↦
          rw (sym same, off) (refl, node, Alike-modify k f g t d e (ground (arith, off)) h rest)
    ]
Alike-modify k f g t [] (x ∷ e) found h a = absurd a
Alike-modify k f g t (x ∷ d) [] found h a = absurd a

pub Alike-lookup :
    (k : String) (d e : Dict TaskNode) → Alike d e → lookup k d ≡ none → lookup k e ≡ none
unfolding lookup
Alike-lookup k [] [] a h = refl
Alike-lookup k ((i, l) ∷ d) ((j, p) ∷ e) (same, node, rest) h = elim (String-cases i k) [
  | inl (at, _) ↦ absurd (ground (arith, at))
  | inr (off, _) ↦ rw (sym same, off) (Alike-lookup k d e rest (ground (arith, off)))
]
Alike-lookup k [] (x ∷ e) a h = absurd a
Alike-lookup k (x ∷ d) [] a h = absurd a

pub Alike-insert :
    (k : String) (l p : TaskNode) (d e : Dict TaskNode)
    → SameTask l p
    → Alike d e
    → Alike (insert k l d) (insert k p e)
unfolding insert
Alike-insert k l p [] [] same a = (refl, same, tt)
Alike-insert k l p ((i, m) ∷ d) ((j, q) ∷ e) same (keys, node, rest) = elim (String-cases i k) [
  | inl (at, _) ↦ rw (sym keys, at) (refl, same, rest)
  | inr (off, _) ↦ rw (sym keys, off) (refl, node, Alike-insert k l p d e same rest)
]
Alike-insert k l p [] (x ∷ e) same a = absurd a
Alike-insert k l p (x ∷ d) [] same a = absurd a
