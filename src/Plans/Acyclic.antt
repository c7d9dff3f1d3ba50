-- ===== src/Plans/Acyclic.antt =====
-- runtime/planning/validator.py: a plan that passes the validation has no cycle.
use mathlib.Core.Path.{subst}
use mathlib.Core.Option
use hermes_lab.Prelude.{
  ℕ, ◌≡◌, refl, sym, ap, inl, inr, String, Option, none, some, List, [], ◌∷◌, ◌++◌, Bool, true,
  false, not, ◌&&◌, ◌||◌, ltb, eqb, Bool-cases, all, elem, length, arith,
}
use hermes_lab.Dict.{Dict, keys}
use hermes_lab.Plans.Defs.{
  PlannedTask, Problem, Bounds, Texts, read_tasks, when, too_many_tasks, no_final_check, is_nil,
}
use hermes_lab.Plans.Lists.{is_nil-append}
use hermes_lab.Plans.Kept.{kept, kept-has_cycle}
use hermes_lab.Plans.Orders.{is_order, Holds, After, Good, has_cycle-Good}
use hermes_lab.Plans.Cycles.{
  Seen, colour, neighbours, has_cycle, go_on_with, find_cycles, graph_of, check_graph, all_problems,
  graph_problems, validate, has_final_check,
}

module _ (graph : Dict (List String)) where
  unfoldable keeps : Seen → Option Seen → Bool
  keeps s none = true
  keeps s (some s') = not (is_nil s'.cycles) || is_nil s.cycles

  keeps_trans :
      (s s' : Seen) (o : Option Seen)
      → (not (is_nil s'.cycles) || is_nil s.cycles) ≡ true
      → keeps s' o ≡ true
      → keeps s o ≡ true
  unfolding keeps
  keeps_trans s s' none k k' = refl
  keeps_trans s s' (some s'') k k' = ground (arith, k, k')

  keeps-go_on_with :
      (s : Seen) (r : Option (Bool × Seen)) (next : Seen → Option Seen)
      → kept graph s r ≡ true
      → ((s' : Seen) → keeps s' (next s') ≡ true)
      → keeps s (go_on_with r next) ≡ true
  unfolding kept keeps go_on_with
  keeps-go_on_with s none next k f = refl
  keeps-go_on_with s (some (found, s')) next k f = keeps_trans s s' (next s') k (f s')

  keeps-find_cycles :
      (n : ℕ) (xs : List String) (s : Seen) → keeps s (find_cycles n graph xs s) ≡ true
  unfolding find_cycles
  keeps-find_cycles n [] s = unfold keeps in ground arith
  keeps-find_cycles n (x ∷ xs) s = ground (
    arith,
    keeps-find_cycles n xs s,
    keeps-go_on_with s (has_cycle n graph x (x ∷ []) s) (find_cycles n graph xs)
        (kept-has_cycle graph n x (x ∷ []) s) (keeps-find_cycles n xs),
  )

  -- An order of the tasks of the search so far and of those in `xs`.
  pub record Ordered (xs order : List String) : Type 0 where
    pub all_tasks : List String
    pub sorted : is_order (neighbours graph) all_tasks ≡ true
    pub more : (y : String) → elem y order ≡ true → elem y all_tasks ≡ true
    pub has_all : all (λ x. elem x all_tasks) xs ≡ true

  abbrev pub Done : List String → List String → Option Seen → Type 0
  Done xs order none = Unit
  Done xs order (some s) = is_nil s.cycles ≡ true → Ordered xs order

  Done-reported :
      (s : Seen) (xs order : List String) (o : Option Seen)
      → is_nil s.cycles ≡ false
      → keeps s o ≡ true
      → Done xs order o
  unfolding keeps
  Done-reported s xs order none e k = tt
  Done-reported s xs order (some s') e k = λ nil. ground (arith, e, k, nil)

  Done-cons :
      (x : String) (xs order order' : List String)
      → ((y : String) → elem y order ≡ true → elem y order' ≡ true)
      → elem x order' ≡ true
      → (o : Option Seen) → Done xs order' o
      → Done (x ∷ xs) order o
  unfolding all
  Done-cons x xs order order' more got none d = tt
  Done-cons x xs order order' more got (some s) d = λ nil.
      let o = d nil in
      record {
        all_tasks = o.all_tasks;
        sorted = o.sorted;
        more = λ y e. o.more y (more y e);
        has_all = ground (arith, o.more x got, o.has_all);
      }

  go_on_with-Done :
      (n : ℕ) (x : String) (xs : List String) (s : Seen) (order : List String)
      → ((y : String) → eqb (colour y s.visited) 1 ≡ false)
      → ((s' : Seen) (order' : List String)
          → Holds graph s' order'
          → ((y : String) → eqb (colour y s'.visited) 1 ≡ false)
          → Done xs order' (find_cycles n graph xs s'))
      → (r : Option (Bool × Seen)) → After graph s order x r
      → Done (x ∷ xs) order (go_on_with r (find_cycles n graph xs))
  unfolding go_on_with
  go_on_with-Done n x xs s order grey f none a = tt
  go_on_with-Done n x xs s order grey f (some (true, s')) a =
      Done-reported s' (x ∷ xs) order (find_cycles n graph xs s') a (keeps-find_cycles n xs s')
  go_on_with-Done n x xs s order grey f (some (false, s')) a =
      Done-cons x xs order a.next a.more a.got (find_cycles n graph xs s')
        (f s' a.next a.holds (λ y. ground (arith, a.greys y, grey y)))

  find_new :
      (n : ℕ) (x : String) (xs : List String) (s : Seen)
      → eqb (colour x s.visited) 0 ≡ true
      → find_cycles n graph (x ∷ xs) s
        ≡ go_on_with (has_cycle n graph x (x ∷ []) s) (find_cycles n graph xs)
  unfolding find_cycles
  find_new n x xs s e = ground (arith, e)

  find_old :
      (n : ℕ) (x : String) (xs : List String) (s : Seen)
      → eqb (colour x s.visited) 0 ≡ false
      → find_cycles n graph (x ∷ xs) s ≡ find_cycles n graph xs s
  unfolding find_cycles
  find_old n x xs s e = ground (arith, e)

  find_cycles-Done :
      (n : ℕ) (xs : List String) (s : Seen) (order : List String)
      → Holds graph s order
      → ((y : String) → eqb (colour y s.visited) 1 ≡ false)
      → Done xs order (find_cycles n graph xs s)
  unfolding find_cycles all
  find_cycles-Done n [] s order h grey =
      λ nil. record { all_tasks = order; sorted = h.sorted; more = λ y e. e; has_all = refl }
  find_cycles-Done n (x ∷ xs) s order h grey = elim (Bool-cases (eqb (colour x s.visited) 0)) [
    | inl e ↦
        let new : colour x s.visited ≡ 0 = ground (arith, e) in
        subst (Done (x ∷ xs) order) (sym (find_new n x xs s e)) (
          go_on_with-Done n x xs s order grey (find_cycles-Done n xs)
            (has_cycle n graph x (x ∷ []) s)
            (unfold Good in has_cycle-Good graph n x (x ∷ []) s order h new))
    | inr e ↦ subst (Done (x ∷ xs) order) (sym (find_old n x xs s e)) (
        Done-cons x xs order order (λ y here. here)
          (ground (arith, e, grey x, h.bounded x, h.done x)) (find_cycles n graph xs s)
          (find_cycles-Done n xs s order h grey))
  ]

abbrev is_fine : Option (List Problem) → Bool
is_fine none = false
is_fine (some found) = is_nil found

is_nil_middle : (xs ys zs : List Problem) → is_nil (xs ++ ys ++ zs) ≡ true → is_nil ys ≡ true
is_nil_middle xs ys zs e = ground (arith, e, is_nil-append xs (ys ++ zs), is_nil-append ys zs)

module _ (py : Texts) (bounds : Bounds) where
  Done-fine :
      (graph : Dict (List String)) (tasks : List PlannedTask) (found : List Problem)
      (xs order : List String) (o : Option Seen)
      → is_fine (Option.map (all_problems py bounds tasks found) o) ≡ true
      → Done graph xs order o
      → Ordered graph xs order
  unfolding all_problems
  Done-fine graph tasks found xs order none e d = ground (arith, e)
  Done-fine graph tasks found xs order (some s) e d = d (
      is_nil_middle found s.cycles
        (when (not (has_final_check py bounds tasks) && ltb 1 (length tasks)) no_final_check) e)

  -- The map of the tasks of a plan, by their ids.
  unfoldable pub task_map : List PlannedTask → Dict PlannedTask
  task_map tasks =
      (read_tasks py bounds tasks
        (when (ltb bounds.max_initial_tasks (length tasks)) too_many_tasks, [])).1

  blank-Holds : (graph : Dict (List String)) → Holds graph (record { visited = []; cycles = [] }) []
  unfolding colour elem is_order
  blank-Holds graph = record { bounded = λ x. refl; done = λ x. refl; sorted = refl }

  check_graph-Ordered :
      (tasks : List PlannedTask) (read : List Problem × Dict PlannedTask)
      → check_graph py bounds tasks read ≡ some []
      → Ordered (graph_of py read.1 read.1) (keys read.1) []
  unfolding check_graph colour
  check_graph-Ordered tasks (found, known) e =
      let graph = graph_of py known known in
      let blank : Seen = record { visited = []; cycles = [] } in
      Done-fine graph tasks (found ++ graph_problems py known known) (keys known) []
        (find_cycles (length known) graph (keys known) blank) (ap is_fine e)
        (find_cycles-Done graph (length known) (keys known) blank [] (blank-Holds graph)
          (λ y. refl))

  -- The tasks of a plan that passes the validation can be put into an order that has every task, and
  -- in which each task comes before the tasks that it depends on.
  pub validate-Ordered :
      (tasks : List PlannedTask)
      → validate py bounds tasks ≡ some []
      → Ordered (graph_of py (task_map tasks) (task_map tasks)) (keys (task_map tasks)) []
  unfolding validate task_map is_order all
  validate-Ordered [] e = record { all_tasks = []; sorted = refl; more = λ y h. h; has_all = refl }
  validate-Ordered (t ∷ tasks) e =
      check_graph-Ordered (t ∷ tasks)
        (read_tasks py bounds (t ∷ tasks)
          (when (ltb bounds.max_initial_tasks (length (t ∷ tasks))) too_many_tasks, []))
        e
