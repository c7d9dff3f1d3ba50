-- ===== src/Plans/Cycles.antt =====
-- runtime/planning/validator.py: the graph of dependencies that `PlanValidator.validate` builds, its
-- search for cycles, and the validation as a whole. The recursion of `has_cycle` is on fuel.
use mathlib.Core.Option
use hermes_lab.Prelude.{
  ℕ, zero, suc, String, Option, none, some, List, [], ◌∷◌, ◌++◌, map, Bool, true, false, not, ◌==◌,
  ◌&&◌, ◌||◌, if◌then◌else◌, ltb, eqb, any, keep, length,
}
use hermes_lab.Dict.{Dict, lookup, has, insert, keys}
use hermes_lab.Plans.Defs.{
  PlannedTask, Problem, no_tasks, too_many_tasks, self_dependency, missing_dependency, cycle,
  no_final_check, Bounds, Texts, when, is_nil, read_tasks,
}

-- The colours of the search: 0 for a task not seen, 1 for one on the path, 2 for one that is done.
abbrev pub or_unseen : Option ℕ → ℕ
or_unseen none = 0
or_unseen (some c) = c

unfoldable pub colour : String → Dict ℕ → ℕ
unfolding lookup
colour x visited = or_unseen (lookup x visited)

abbrev pub or_nothing : Option (List String) → List String
or_nothing none = []
or_nothing (some xs) = xs

unfoldable pub neighbours : Dict (List String) → String → List String
unfolding lookup
neighbours graph x = or_nothing (lookup x graph)

-- `visited`, and the cycles reported.
pub record Seen : Type 0 where
  pub visited : Dict ℕ
  pub cycles : List Problem

unfoldable pub paint : String → ℕ → Seen → Seen
unfolding insert
paint x c s = record s { visited = insert x c s.visited }

unfoldable pub report : List String → Seen → Seen
report path s = record s { cycles = s.cycles ++ cycle path ∷ [] }

-- The search goes on after a neighbour that is on no cycle.
unfoldable pub go_on : Option (Bool × Seen) → (Seen → Option (Bool × Seen)) → Option (Bool × Seen)
go_on none next = none
go_on (some (true, s)) next = some (true, s)
go_on (some (false, s)) next = next s

-- The loop of `has_cycle` over the neighbours, with the search of a neighbour.
unfoldable pub scan :
    (String → List String → Seen → Option (Bool × Seen))
    → String
    → List String
    → List String
    → Seen
    → Option (Bool × Seen)
unfolding colour paint report go_on
scan look curr path [] s = some (false, paint curr 2 s)
scan look curr path (x ∷ xs) s =
    let rest = scan look curr path xs in
    if eqb (colour x s.visited) 1
    then some (true, report (path ++ x ∷ []) s)
    else if eqb (colour x s.visited) 0
    then go_on (look x (path ++ x ∷ []) s) rest
    else rest s

-- `none` where the fuel runs out
unfoldable pub has_cycle :
    ℕ → Dict (List String) → String → List String → Seen → Option (Bool × Seen)
unfolding scan neighbours paint
has_cycle zero graph curr path s = none
has_cycle (suc n) graph curr path s =
    scan (has_cycle n graph) curr path (neighbours graph curr) (paint curr 1 s)

unfoldable pub go_on_with : Option (Bool × Seen) → (Seen → Option Seen) → Option Seen
go_on_with none next = none
go_on_with (some (found, s)) next = next s

-- The loop over the tasks that are not seen yet.
unfoldable pub find_cycles : ℕ → Dict (List String) → List String → Seen → Option Seen
unfolding has_cycle colour go_on_with
find_cycles n graph [] s = some s
find_cycles n graph (x ∷ xs) s =
    let rest = find_cycles n graph xs in
    if eqb (colour x s.visited) 0 then go_on_with (has_cycle n graph x (x ∷ []) s) rest else rest s

-- The test of one dependency: what it reports, and whether it is an edge.
module _ (py : Texts) (tasks : Dict PlannedTask) where
  unfoldable pub is_edge : String → String → Bool
  unfolding lookup
  is_edge tid dep = not (dep == "") && not (dep == tid) && has dep tasks

  abbrev pub dependency_problems : String → List String → List Problem
  unfolding lookup
  dependency_problems tid [] = []
  dependency_problems tid (d ∷ deps) =
      let dep = py.strip d in
      let rest = dependency_problems tid deps in
      when (not (dep == "") && dep == tid) (self_dependency tid)
      ++ when (not (dep == "") && not (dep == tid) && not (has dep tasks))
          (missing_dependency tid dep)
      ++ rest

  unfoldable pub edges_of : String → PlannedTask → List String
  unfolding is_edge keep
  edges_of tid t = keep (is_edge tid) (map py.strip t.dependencies)

  -- `dep_graph`, whose tasks are those of `task_map`
  unfoldable pub graph_of : Dict PlannedTask → Dict (List String)
  unfolding edges_of
  graph_of [] = []
  graph_of ((tid, t) ∷ rest) = (tid, edges_of tid t) ∷ graph_of rest

  unfoldable pub graph_problems : Dict PlannedTask → List Problem
  unfolding dependency_problems
  graph_problems [] = []
  graph_problems ((tid, t) ∷ rest) = dependency_problems tid t.dependencies ++ graph_problems rest

module _ (py : Texts) (bounds : Bounds) where
  abbrev pub names_check : String → Bool
  names_check s =
      let low = py.lower s in
      py.within "verify" low || py.within "test" low || py.within "review" low

  -- One task at least checks what the plan changes.
  unfoldable pub has_final_check : List PlannedTask → Bool
  unfolding any
  has_final_check = any (λ t.
      any names_check t.required_capabilities
      || py.within "verify" (py.lower t.task_id)
      || py.within "test" (py.lower t.task_id)
      || not (is_nil t.verification))

  -- What is reported of a plan once its cycles are known.
  unfoldable pub all_problems : List PlannedTask → List Problem → Seen → List Problem
  unfolding has_final_check
  all_problems tasks found s =
      found ++ s.cycles ++ when (not (has_final_check tasks) && ltb 1 (length tasks)) no_final_check

  unfoldable pub check_graph :
      List PlannedTask → List Problem × Dict PlannedTask → Option (List Problem)
  unfolding find_cycles graph_of graph_problems
  check_graph tasks (found, known) =
      Option.map (all_problems tasks (found ++ graph_problems py known known)) (
        find_cycles (length known) (graph_of py known known) (keys known)
          (record { visited = []; cycles = [] }))

  -- The problems of a plan, which is valid where there are none.
  unfoldable pub validate : List PlannedTask → Option (List Problem)
  unfolding check_graph read_tasks
  validate [] = some (no_tasks ∷ [])
  validate (t ∷ tasks) = check_graph (t ∷ tasks) (
      read_tasks py bounds (t ∷ tasks)
        (when (ltb bounds.max_initial_tasks (length (t ∷ tasks))) too_many_tasks, []))
