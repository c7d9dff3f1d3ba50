-- ===== src/Plans/Endings.antt =====
-- runtime/planning/validator.py: the validation of a plan comes to an end.
use mathlib.Core.Path.{subst}
use mathlib.Core.Option
use hermes_lab.Prelude.{
  ◌≤◌, ◌≡◌, refl, sym, ap, ◌∙◌, String, Option, none, some, List, [], ◌∷◌, ◌++◌, map, true, ltb,
  is_some, all, keep, elem, length, arith,
}
use hermes_lab.Dict.{Dict, lookup, keys}
use hermes_lab.Dict.Laws.{elem-keys}
use hermes_lab.Plans.Defs.{PlannedTask, Problem, Bounds, Texts, read_tasks, when, too_many_tasks}
use hermes_lab.Plans.Lists.{elem_self}
use hermes_lab.Plans.Searches.{unseen, IsClosed, find_cycles-some}
use hermes_lab.Plans.Cycles.{
  neighbours, find_cycles, edges_of, graph_of, is_edge, check_graph, all_problems, graph_problems,
  validate,
}

module _ (py : Texts) (tasks : Dict PlannedTask) where
  keep_edges-closed :
      (tid : String) (xs : List String)
      → all (λ d. elem d (keys tasks)) (keep (is_edge py tasks tid) xs) ≡ true
  unfolding all keep is_edge
  keep_edges-closed tid [] = refl
  keep_edges-closed tid (x ∷ xs) = ground (arith, keep_edges-closed tid xs, elem-keys x tasks)

  graph_of-closed :
      (rest : Dict PlannedTask) (x : String)
      → all (λ d. elem d (keys tasks)) (neighbours (graph_of py tasks rest) x) ≡ true
  unfolding all neighbours graph_of edges_of lookup
  graph_of-closed [] x = refl
  graph_of-closed ((tid, t) ∷ rest) x =
      ground (arith, graph_of-closed rest x, keep_edges-closed tid (map py.strip t.dependencies))

  keys-graph_of : (rest : Dict PlannedTask) → keys (graph_of py tasks rest) ≡ keys rest
  unfolding graph_of
  keys-graph_of [] = refl
  keys-graph_of ((tid, t) ∷ rest) = ap (λ ks. tid ∷ ks) (keys-graph_of rest)

unseen-length : {V : Type 0} (d : Dict V) → unseen (keys d) [] ≤ length d
unfolding unseen
unseen-length [] = omega arith
unseen-length ((k, v) ∷ d) = ground (arith, unseen-length d)

-- The search for cycles ends, with as much fuel as there are tasks.
graph-ends :
    (py : Texts) (tasks : Dict PlannedTask)
    → is_some (
        find_cycles
          (length tasks)
          (graph_of py tasks tasks)
          (keys tasks)
          (record { visited = []; cycles = [] }))
      ≡ true
graph-ends py tasks =
    let same = keys-graph_of py tasks tasks in
    find_cycles-some (graph_of py tasks tasks) (length tasks)
      (unfold IsClosed in
        λ x.
          subst (λ ks. all (λ d. elem d ks) (neighbours (graph_of py tasks tasks) x) ≡ true)
            (sym same) (graph_of-closed py tasks tasks x))
      (keys tasks) (record { visited = []; cycles = [] })
      (subst (λ ks. all (λ x. elem x ks) (keys tasks) ≡ true) (sym same) (elem_self (keys tasks)))
      (subst (λ ks. unseen ks [] ≤ length tasks) (sym same) (unseen-length tasks))

is_some-map : {A B : Type 0} (f : A → B) (o : Option A) → is_some (Option.map f o) ≡ is_some o
is_some-map f none = refl
is_some-map f (some a) = refl

module _ (py : Texts) (bounds : Bounds) where
  check_graph-some :
      (tasks : List PlannedTask) (read : List Problem × Dict PlannedTask)
      → is_some (check_graph py bounds tasks read) ≡ true
  unfolding check_graph
  check_graph-some tasks (found, known) =
      is_some-map (all_problems py bounds tasks (found ++ graph_problems py known known)) (
        find_cycles (length known) (graph_of py known known) (keys known)
          (record { visited = []; cycles = [] }))
      ∙ graph-ends py known

  -- The validation of a plan ends, whatever the plan, with as much fuel for the search for cycles as
  -- there are tasks in its map.
  pub validate-ends : (tasks : List PlannedTask) → is_some (validate py bounds tasks) ≡ true
  unfolding validate
  validate-ends [] = refl
  validate-ends (t ∷ tasks) = check_graph-some (t ∷ tasks) (
      read_tasks py bounds (t ∷ tasks)
        (when (ltb bounds.max_initial_tasks (length (t ∷ tasks))) too_many_tasks, []))
