-- ===== src/TaskGraph/Paths.antt =====
-- `_has_path` decides reachability along dependencies, whatever cycles the graph has.
use hermes_lab.Prelude.{
  ℕ, zero, suc, ◌+◌, ◌≤◌, ◌<◌, String, ◌≡◌, ◌↔◌, refl, some, List, [], ◌∷◌, ◌++◌, Bool, true, false,
  not, arith, ◌==◌, eq_iff, eq_refl, elem, keep, length, length-append, length-keep, elem-append,
  elem-keep, Bool-cases, String-cases, Option-cases, inl, inr, ap, sym, ◌∙◌, ◌||◌,
}
use mathlib.Core.Path.{subst}
use hermes_lab.Dict.{Dict, lookup}
use hermes_lab.Task.{TaskNode}
use hermes_lab.TaskGraph.Defs.{dependencies_of, has_path_loop, path_fuel, has_path}
use hermes_lab.TaskGraph.Weight.{weight, weight-seen, weight-unseen}

-- `t` is reached from `s` by following dependencies.
pub data Reaches (tasks : Dict TaskNode) (s : String) : String → Type 0 where
  here : Reaches tasks s s
  next :
      {t u : String}
      → Reaches tasks s t
      → elem u (dependencies_of tasks t) ≡ true
      → Reaches tasks s u

pub Reaches-trans :
    {tasks : Dict TaskNode} {s t u : String}
    → Reaches tasks s t
    → Reaches tasks t u
    → Reaches tasks s u
Reaches-trans r here = r
Reaches-trans r (next r' e) = next (Reaches-trans r r') e

-- The entries that a visit of `curr` puts on the queue.
abbrev fresh : Dict TaskNode → List String → String → List String
fresh tasks visited curr =
    keep (λ dep. not (elem dep (curr ∷ visited))) (dependencies_of tasks curr)

abbrev edges : TaskNode → ℕ
edges node = length node.dependencies

weight-start : (tasks : Dict TaskNode) → weight edges [] tasks + 2 ≤ path_fuel tasks
unfolding weight elem path_fuel
weight-start [] = omega arith
weight-start ((k, node) ∷ tasks) = omega (arith, weight-start tasks)

module _ (tasks : Dict TaskNode) where
  fresh-weight :
      (visited : List String) (curr : String)
      → elem curr visited ≡ false
      → length (fresh tasks visited curr) + weight edges (curr ∷ visited) tasks
        ≤ weight edges visited tasks
  unfolding dependencies_of
  fresh-weight visited curr new =
      let p = λ (dep : String). not (elem dep (curr ∷ visited)) in
      elim (Option-cases (lookup curr tasks)) [
        | inl e ↦
            rw (e, dependencies_of)
              (unfold keep in omega (arith, weight-unseen edges curr visited tasks))
        | inr (node, e) ↦
            rw (e, dependencies_of)
              (omega (
                arith,
                weight-seen edges curr node visited tasks e new,
                length-keep p node.dependencies,
              ))
      ]

  module _ (target : String) (fuel : ℕ) (visited : List String) (curr : String)
      (queue : List String) where
    loop_hit :
        (curr == target) ≡ true
        → has_path_loop (suc fuel) tasks target visited (curr ∷ queue) ≡ some true
    unfolding has_path_loop
    loop_hit hit = rw (hit, has_path_loop)

    loop_old :
        (curr == target) ≡ false
        → elem curr visited ≡ true
        → has_path_loop (suc fuel) tasks target visited (curr ∷ queue)
          ≡ has_path_loop fuel tasks target visited queue
    unfolding has_path_loop
    loop_old miss old = rw (miss, old, has_path_loop)

    loop_new :
        (curr == target) ≡ false
        → elem curr visited ≡ false
        → has_path_loop (suc fuel) tasks target visited (curr ∷ queue)
          ≡ has_path_loop fuel tasks target (curr ∷ visited) (queue ++ fresh tasks visited curr)
    unfolding has_path_loop
    loop_new miss new = rw (miss, new, has_path_loop)

  -- With fuel above the queue and the unseen edges the loop ends.
  loop_ends :
      (target : String) (fuel : ℕ) (visited queue : List String)
      → length queue + weight edges visited tasks < fuel
      → (b : Bool) × (has_path_loop fuel tasks target visited queue ≡ some b)
  loop_ends target zero visited queue h = absurd (omega arith)
  loop_ends target (suc fuel) visited [] h = (false, unfold has_path_loop in refl)
  loop_ends target (suc fuel) visited (curr ∷ queue) h = elim (Bool-cases (curr == target)) [
    | inl hit ↦ (true, loop_hit target fuel visited curr queue hit)
    | inr miss ↦ elim (Bool-cases (elem curr visited)) [
      | inl old ↦
          let (b, e) = loop_ends target fuel visited queue (omega arith) in
          (b, loop_old target fuel visited curr queue miss old ∙ e)
      | inr new ↦
          let (b, e) = loop_ends target fuel (curr ∷ visited) (queue ++ fresh tasks visited curr) (
            omega (
              arith,
              fresh-weight visited curr new,
              length-append {0} queue (fresh tasks visited curr),
            )) in
          (b, loop_new target fuel visited curr queue miss new ∙ e)
    ]
  ]

  abbrev AllReached : String → List String → Type 0
  AllReached start queue = (a : String) → elem a queue ≡ true → Reaches tasks start a

  AllReached-fresh :
      (start : String) (visited : List String) (curr : String) (queue : List String)
      → AllReached start (curr ∷ queue)
      → AllReached start (queue ++ fresh tasks visited curr)
  AllReached-fresh start visited curr queue r a m = elim (Bool-cases (elem a queue)) [
    | inl old ↦ r a (unfold elem in ground arith)
    | inr new ↦ next (r curr (unfold elem in ground (arith, eq_refl curr))) (
        ground (
          arith,
          elem-append a queue (fresh tasks visited curr),
          elem-keep (λ dep. not (elem dep (curr ∷ visited))) a (dependencies_of tasks curr),
        ))
  ]

  loop_sound :
      (start target : String) (fuel : ℕ) (visited queue : List String)
      → AllReached start queue
      → has_path_loop fuel tasks target visited queue ≡ some true
      → Reaches tasks start target
  loop_sound start target zero visited queue r h = absurd (unfold has_path_loop in cc)
  loop_sound start target (suc fuel) visited [] r h = absurd (unfold has_path_loop in cc)
  loop_sound start target (suc fuel) visited (curr ∷ queue) r h =
      elim (Bool-cases (curr == target)) [
        | inl hit ↦
            subst (Reaches tasks start) ((eq_iff curr target).0 hit)
              (r curr (unfold elem in ground (arith, eq_refl curr)))
        | inr miss ↦ elim (Bool-cases (elem curr visited)) [
          | inl old ↦
              loop_sound start target fuel visited queue (λ a m. r a (unfold elem in ground arith))
                (sym (loop_old target fuel visited curr queue miss old) ∙ h)
          | inr new ↦
              loop_sound start target fuel (curr ∷ visited) (queue ++ fresh tasks visited curr)
                (AllReached-fresh start visited curr queue r)
                (sym (loop_new target fuel visited curr queue miss new) ∙ h)
        ]
      ]

  -- What the loop has seen is closed under dependencies, up to the queue, and misses the target.
  record Covers (start target : String) (visited queue : List String) : Type 0 where
    seen_start : (elem start visited || elem start queue) ≡ true
    misses : elem target visited ≡ false
    closed :
        (t u : String)
        → elem t visited ≡ true
        → elem u (dependencies_of tasks t) ≡ true
        → (elem u visited || elem u queue) ≡ true

  Covers-Reaches :
      (start target u : String) (visited : List String)
      → Covers start target visited []
      → Reaches tasks start u
      → elem u visited ≡ true
  unfolding elem
  Covers-Reaches start target u visited c here = ground (arith, c.seen_start)
  Covers-Reaches start target u visited c (next {t} r e) =
      ground (arith, c.closed t u (Covers-Reaches start target t visited c r) e)

  Covers-old :
      (start target curr : String) (visited queue : List String)
      → elem curr visited ≡ true
      → Covers start target visited (curr ∷ queue)
      → Covers start target visited queue
  unfolding elem
  Covers-old start target curr visited queue old c = record {
    seen_start = ground (arith, c.seen_start, eq_iff curr start);
    misses = c.misses;
    closed = λ t u m e. ground (arith, c.closed t u m e, eq_iff curr u);
  }

  Covers-new :
      (start target curr : String) (visited queue : List String)
      → (curr == target) ≡ false
      → Covers start target visited (curr ∷ queue)
      → Covers start target (curr ∷ visited) (queue ++ fresh tasks visited curr)
  unfolding elem
  Covers-new start target curr visited queue miss c = record {
    seen_start = ground (arith, c.seen_start, elem-append start queue (fresh tasks visited curr));
    misses = ground (arith, c.misses);
    closed = λ t u m e. elim (String-cases curr t) [
      | inl (_, same) ↦ after_visit u (rw (← same) at e)
      | inr (other, _) ↦ before_visit u (c.closed t u (ground arith) e)
    ];
  }
    where
      sees : (u : String) → Bool
      sees u = elem u (curr ∷ visited) || elem u (queue ++ fresh tasks visited curr)

      after_visit : (u : String) → elem u (dependencies_of tasks curr) ≡ true → sees u ≡ true
      after_visit u e = ground (
        arith,
        elem-append u queue (fresh tasks visited curr),
        elem-keep (λ dep. not (elem dep (curr ∷ visited))) u (dependencies_of tasks curr),
      )

      before_visit : (u : String) → (elem u visited || elem u (curr ∷ queue)) ≡ true → sees u ≡ true
      before_visit u e = ground (arith, elem-append u queue (fresh tasks visited curr))

  loop_complete :
      (start target : String) (fuel : ℕ) (visited queue : List String)
      → Covers start target visited queue
      → has_path_loop fuel tasks target visited queue ≡ some false
      → ¬ Reaches tasks start target
  loop_complete start target zero visited queue c h = absurd (unfold has_path_loop in cc)
  loop_complete start target (suc fuel) visited [] c h =
      λ r. cc (Covers-Reaches start target target visited c r, c.misses)
  loop_complete start target (suc fuel) visited (curr ∷ queue) c h =
      elim (Bool-cases (curr == target)) [
        | inl hit ↦ absurd (cc (loop_hit target fuel visited curr queue hit))
        | inr miss ↦ elim (Bool-cases (elem curr visited)) [
          | inl old ↦
              loop_complete start target fuel visited queue
                (Covers-old start target curr visited queue old c)
                (sym (loop_old target fuel visited curr queue miss old) ∙ h)
          | inr new ↦
              loop_complete start target fuel (curr ∷ visited) (queue ++ fresh tasks visited curr)
                (Covers-new start target curr visited queue miss c)
                (sym (loop_new target fuel visited curr queue miss new) ∙ h)
        ]
      ]

  AllReached-start : (start : String) → AllReached start (start ∷ [])
  AllReached-start start a m = elim (String-cases start a) [
    | inl (_, same) ↦ subst (Reaches tasks start) same here
    | inr (other, _) ↦ absurd (unfold elem in ground arith)
  ]

  Covers-start : (start target : String) → Covers start target [] (start ∷ [])
  unfolding elem
  Covers-start start target = record {
    seen_start = ground (arith, eq_refl start);
    misses = refl;
    closed = λ t u m e. absurd (cc);
  }

  -- The search always ends within its fuel.
  pub has_path_ends :
      (start target : String)
      → (b : Bool) × (has_path_loop (path_fuel tasks) tasks target [] (start ∷ []) ≡ some b)
  has_path_ends start target =
      loop_ends target (path_fuel tasks) [] (start ∷ []) (omega (arith, weight-start tasks))

  -- `_has_path` answers yes exactly on the tasks that are reached along dependencies.
  pub has_path_iff :
      (start target : String) → (has_path tasks start target ≡ true) ↔ Reaches tasks start target
  unfolding has_path
  has_path_iff start target = (sound, complete)
    where
      ends : (b : Bool) × (has_path_loop (path_fuel tasks) tasks target [] (start ∷ []) ≡ some b)
      ends = has_path_ends start target

      sound : has_path tasks start target ≡ true → Reaches tasks start target
      sound h =
          loop_sound start target (path_fuel tasks) [] (start ∷ []) (AllReached-start start)
            (ground (arith, ends.1))

      complete : Reaches tasks start target → has_path tasks start target ≡ true
      complete r = elim (Bool-cases ends.0) [
        | inl e ↦ ground (arith, ends.1)
        | inr e ↦ absurd (
            loop_complete start target (path_fuel tasks) [] (start ∷ []) (Covers-start start target)
              (ends.1 ∙ ap some e) r)
      ]
