-- ===== src/TaskGraph/Acyclic.antt =====
-- `add_dependency` keeps the graph free of cycles.
use mathlib.Core.Path.{subst}
use hermes_lab.Prelude.{
  String, ◌≡◌, ◌↔◌, [], ◌∷◌, true, false, arith, eq_iff, elem, elem-append, Option-cases,
  value_error, String-cases, inl, inr, ◌⊎◌, ok, err, sym,
}
use hermes_lab.Dict.{Dict, lookup, has, modify}
use hermes_lab.Dict.Laws.{lookup-modify}
use hermes_lab.Task.{TaskNode}
use hermes_lab.TaskGraph.Defs.{TaskGraph, dependencies_of, has_path, append_missing, add_dependency}
use hermes_lab.TaskGraph.Paths.{Reaches, here, next, Reaches-trans, has_path_iff}

-- No task depends on itself, directly or through others.
abbrev pub IsAcyclic : Dict TaskNode → Type 0
IsAcyclic tasks = (u v : String) → elem v (dependencies_of tasks u) ≡ true → ¬ Reaches tasks v u

module _ (tasks : Dict TaskNode) (id dep : String) where
  abbrev grown : Dict TaskNode
  grown = modify id (append_missing dep) tasks

  -- The new graph has the old edges, and at most the edge from `id` to `dep` besides.
  edge_cases :
      (u v : String)
      → elem v (dependencies_of grown u) ≡ true
      → (elem v (dependencies_of tasks u) ≡ true) ⊎ (id ≡ u) × (dep ≡ v)
  unfolding dependencies_of append_missing elem
  edge_cases u v e = elim (Option-cases (lookup u tasks)) [
    | inl gone ↦ ground (arith, lookup-modify id u (append_missing dep) tasks)
    | inr (node, found) ↦ ground (
      arith,
      lookup-modify id u (append_missing dep) tasks,
      eq_iff id u,
      eq_iff dep v,
      elem-append v node.dependencies (dep ∷ []),
    )
  ]

  Reaches-grown :
      {s t : String}
      → Reaches grown s t
      → Reaches tasks s t ⊎ Reaches tasks s id × Reaches tasks dep t
  Reaches-grown here = inl here
  Reaches-grown (next {t} {u} r e) = elim (edge_cases t u e) [
    | inl old ↦ elim (Reaches-grown r) [
      | inl before ↦ inl (next before old)
      | inr (to_id, from_dep) ↦ inr (to_id, next from_dep old)
    ]
    | inr (at_id, at_dep) ↦ elim (Reaches-grown r) [
      | inl before ↦
          inr (subst (Reaches tasks _) (sym at_id) before, subst (Reaches tasks dep) at_dep here)
      | inr (to_id, from_dep) ↦ inr (to_id, subst (Reaches tasks dep) at_dep here)
    ]
  ]

  IsAcyclic-grown : ¬ Reaches tasks dep id → IsAcyclic tasks → IsAcyclic grown
  IsAcyclic-grown apart acyclic u v e r = elim (edge_cases u v e) [
    | inl old ↦ elim (Reaches-grown r) [
      | inl before ↦ acyclic u v old before
      | inr (to_id, from_dep) ↦ apart (Reaches-trans (next from_dep old) to_id)
    ]
    | inr (at_id, at_dep) ↦ elim (Reaches-grown r) [
      | inl before ↦ apart (
          subst (Reaches tasks dep) (sym at_id)
            (subst (λ x. Reaches tasks x u) (sym at_dep) before))
      | inr (to_id, from_dep) ↦ apart (subst (Reaches tasks dep) (sym at_id) from_dep)
    ]
  ]

add_dependency-eq-ok :
    (id dep : String) (g h : TaskGraph)
    → add_dependency id dep g ≡ ok h
    → (has_path g.tasks dep id ≡ false) × (h.tasks ≡ grown g.tasks id dep)
unfolding add_dependency
add_dependency-eq-ok id dep g h e = ground arith

-- A graph without cycles has none after `add_dependency` has accepted a dependency.
pub add_dependency-IsAcyclic :
    (id dep : String) (g h : TaskGraph)
    → add_dependency id dep g ≡ ok h
    → IsAcyclic g.tasks
    → IsAcyclic h.tasks
add_dependency-IsAcyclic id dep g h e acyclic =
    let (no_path, tasks_eq) = add_dependency-eq-ok id dep g h e in
    subst IsAcyclic (sym tasks_eq) (
      IsAcyclic-grown g.tasks id dep (λ r. cc (no_path, (has_path_iff g.tasks dep id).1 r)) acyclic)

-- `add_dependency` between two tasks of the graph is refused exactly when the dependency would
-- close a cycle: the task is the dependency itself, or is reached from it.
pub add_dependency-refuses :
    (id dep : String) (g : TaskGraph)
    → has id g.tasks ≡ true
    → has dep g.tasks ≡ true
    → (add_dependency id dep g ≡ err value_error) ↔ Reaches g.tasks dep id
unfolding add_dependency
add_dependency-refuses id dep g known_id known_dep = (refused, refuse)
  where
    refused : add_dependency id dep g ≡ err value_error → Reaches g.tasks dep id
    refused e = elim (String-cases id dep) [
      | inl (_, same) ↦ subst (Reaches g.tasks dep) (sym same) here
      | inr (other, _) ↦ (has_path_iff g.tasks dep id).0 (ground arith)
    ]

    refuse : Reaches g.tasks dep id → add_dependency id dep g ≡ err value_error
    refuse r = ground (arith, (has_path_iff g.tasks dep id).1 r)
