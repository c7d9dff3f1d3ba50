-- ===== src/TaskGraph/Done.antt =====
-- `_dependency_done` follows the chain of replacements to its end, and always comes back.
use mathlib.Core.Path.{subst}
use hermes_lab.Prelude.{
  ℕ, zero, suc, ◌+◌, ◌≤◌, ◌<◌, String, ◌≡◌, ◌↔◌, refl, sym, ap, ◌∙◌, Option, none, some, List, [],
  ◌∷◌, Bool, true, false, arith, ◌==◌, ◌||◌, truthy, elem, length, Bool-cases, String-cases, inl,
  inr, ◌⊎◌,
}
use hermes_lab.Dict.{Dict, lookup}
use hermes_lab.Task.{TaskNode, succeeded, superseded}
use hermes_lab.TaskGraph.Queries.{
  Verdict, done, unfinished, follow, verdict, done_loop, dependency_done,
}
use hermes_lab.TaskGraph.Weight.{weight, weight-seen}

weight-none : (d : Dict TaskNode) → weight (λ (n : TaskNode). 1) [] d ≡ length d
unfolding weight elem
weight-none [] = refl
weight-none ((k, n) ∷ d) = omega (arith, weight-none d)

module _ (tasks : Dict TaskNode) where
  -- A dependency is done after `k` replacements: it succeeded, or it was superseded by nothing, or
  -- by a task that is done.
  pub data Done : ℕ → String → Type 0 where
    success :
        {id : String} {n : TaskNode}
        → (id == "") ≡ false
        → lookup id tasks ≡ some n
        → n.status ≡ succeeded
        → Done zero id
    dropped :
        {id : String} {n : TaskNode}
        → (id == "") ≡ false
        → lookup id tasks ≡ some n
        → n.status ≡ superseded
        → truthy n.superseded_by ≡ none
        → Done zero id
    replaced :
        {k : ℕ} {id r : String} {n : TaskNode}
        → (id == "") ≡ false
        → lookup id tasks ≡ some n
        → n.status ≡ superseded
        → truthy n.superseded_by ≡ some r
        → Done k r
        → Done (suc k) id

  abbrev pub IsDone : String → Type 0
  IsDone id = (k : ℕ) × Done k id

  -- The verdict that a derivation shows.
  abbrev Shows : ℕ → String → Type 0
  Shows zero id = (id == "") ≡ false × (verdict (lookup id tasks) ≡ done)
  Shows (suc k) id =
      (id == "") ≡ false × ((r : String) × (verdict (lookup id tasks) ≡ follow r) × Done k r)

  Done-Shows : {k : ℕ} {id : String} → Done k id → Shows k id
  unfolding verdict
  Done-Shows (success named found s) = ground arith
  Done-Shows (dropped named found s t) = ground arith
  Done-Shows (replaced {r = r} named found s t d) = (named, (r, ground arith, d))

  Done-unique : (k m : ℕ) (id : String) → Done k id → Done m id → k ≡ m
  Done-unique zero zero id d e = refl
  Done-unique zero (suc m) id d e = absurd (cc ((Done-Shows d).1, (Done-Shows e).1.1))
  Done-unique (suc k) zero id d e = absurd (cc ((Done-Shows d).1.1, (Done-Shows e).1))
  Done-unique (suc k) (suc m) id d e =
      let (_, shown_d) = Done-Shows d in
      let (r, at_r, rest_d) = shown_d in
      let (_, shown_e) = Done-Shows e in
      let (s, at_s, rest_e) = shown_e in
      let same : s ≡ r = cc in ap suc (Done-unique k m r rest_d (subst (Done m) same rest_e))

  Verdict-cases : (v : Verdict) → (v ≡ done) ⊎ (v ≡ unfinished) ⊎ ((r : String) × (v ≡ follow r))
  Verdict-cases done = inl refl
  Verdict-cases unfinished = inr (inl refl)
  Verdict-cases (follow r) = inr (inr (r, refl))

  verdict-eq-follow :
      (o : Option TaskNode) (r : String)
      → verdict o ≡ follow r
      → (n : TaskNode) × (o ≡ some n) × (n.status ≡ superseded) × (truthy n.superseded_by ≡ some r)
  unfolding verdict
  verdict-eq-follow none r e = absurd (cc)
  verdict-eq-follow (some n) r e = (n, refl, ground arith, ground arith)

  verdict-eq-done :
      (o : Option TaskNode)
      → verdict o ≡ done
      → (n : TaskNode) × (o ≡ some n)
        × ((n.status ≡ succeeded) ⊎ (n.status ≡ superseded) × (truthy n.superseded_by ≡ none))
  unfolding verdict
  verdict-eq-done none e = absurd (cc)
  verdict-eq-done (some n) e = (n, refl, ground arith)

  module _ (fuel : ℕ) (seen : List String) (id : String) where
    loop_stop : (id == "" || elem id seen) ≡ true → done_loop (suc fuel) tasks seen id ≡ some false
    unfolding done_loop
    loop_stop e = rw (e, done_loop)

    loop_done :
        (id == "" || elem id seen) ≡ false
        → verdict (lookup id tasks) ≡ done
        → done_loop (suc fuel) tasks seen id ≡ some true
    unfolding done_loop
    loop_done e v = rw (e, v, done_loop)

    loop_unfinished :
        (id == "" || elem id seen) ≡ false
        → verdict (lookup id tasks) ≡ unfinished
        → done_loop (suc fuel) tasks seen id ≡ some false
    unfolding done_loop
    loop_unfinished e v = rw (e, v, done_loop)

    loop_follow :
        (next : String)
        → (id == "" || elem id seen) ≡ false
        → verdict (lookup id tasks) ≡ follow next
        → done_loop (suc fuel) tasks seen id ≡ done_loop fuel tasks (id ∷ seen) next
    unfolding done_loop
    loop_follow next e v = rw (e, v, done_loop)

  abbrev unseen : List String → ℕ
  unseen seen = weight (λ (n : TaskNode). 1) seen tasks

  unseen-falls :
      (seen : List String) (id next : String)
      → (id == "" || elem id seen) ≡ false
      → verdict (lookup id tasks) ≡ follow next
      → unseen (id ∷ seen) + 1 ≤ unseen seen
  unseen-falls seen id next e v =
      let (n, found, _, _) = verdict-eq-follow (lookup id tasks) next v in
      weight-seen (λ (n : TaskNode). 1) id n seen tasks found (ground arith)

  loop_ends :
      (fuel : ℕ) (seen : List String) (id : String)
      → unseen seen < fuel
      → (b : Bool) × (done_loop fuel tasks seen id ≡ some b)
  loop_ends zero seen id h = absurd (omega arith)
  loop_ends (suc fuel) seen id h = elim (Bool-cases (id == "" || elem id seen)) [
    | inl stop ↦ (false, loop_stop fuel seen id stop)
    | inr on ↦ elim (Verdict-cases (verdict (lookup id tasks))) [
      | inl v ↦ (true, loop_done fuel seen id on v)
      | inr (inl v) ↦ (false, loop_unfinished fuel seen id on v)
      | inr (inr (next, v)) ↦
          let (b, e) =
            loop_ends fuel (id ∷ seen) next (omega (arith, unseen-falls seen id next on v)) in
          (b, loop_follow fuel seen id next on v ∙ e)
    ]
  ]

  loop_sound :
      (fuel : ℕ) (seen : List String) (id : String)
      → done_loop fuel tasks seen id ≡ some true
      → IsDone id
  loop_sound zero seen id h = absurd (unfold done_loop in cc)
  loop_sound (suc fuel) seen id h = elim (Bool-cases (id == "" || elem id seen)) [
    | inl stop ↦ absurd (cc (loop_stop fuel seen id stop))
    | inr on ↦ elim (Verdict-cases (verdict (lookup id tasks))) [
      | inl v ↦
          let (n, found, how) = verdict-eq-done (lookup id tasks) v in
          elim how [
            | inl s ↦ (zero, success (ground arith) found s)
            | inr (s, t) ↦ (zero, dropped (ground arith) found s t)
          ]
      | inr (inl v) ↦ absurd (cc (loop_unfinished fuel seen id on v))
      | inr (inr (next, v)) ↦
          let (n, found, s, t) = verdict-eq-follow (lookup id tasks) next v in
          let (k, d) =
            loop_sound fuel (id ∷ seen) next (sym (loop_follow fuel seen id next on v) ∙ h) in
          (suc k, replaced (ground arith) found s t d)
    ]
  ]

  -- What was seen is further from the end of its chain.
  abbrev Later : List String → ℕ → Type 0
  Later seen k = (a : String) (m : ℕ) → elem a seen ≡ true → Done m a → k < m

  Done-unseen :
      (seen : List String) (k : ℕ) (id : String)
      → Done k id
      → Later seen k
      → (id == "") ≡ false
      → (id == "" || elem id seen) ≡ false
  Done-unseen seen k id d later named = elim (Bool-cases (elem id seen)) [
    | inl old ↦ absurd (omega (arith, later id k old d))
    | inr new ↦ ground arith
  ]

  Later-cons :
      (seen : List String) (k : ℕ) (id : String)
      → Done (suc k) id
      → Later seen (suc k)
      → Later (id ∷ seen) k
  unfolding elem
  Later-cons seen k id d later a m e d' = elim (String-cases id a) [
    | inl (_, same) ↦ omega (arith, Done-unique (suc k) m a (subst (Done (suc k)) same d) d')
    | inr (other, _) ↦ omega (arith, later a m (ground arith) d')
  ]

  loop_complete :
      (fuel : ℕ) (seen : List String) (k : ℕ) (id : String)
      → Done k id
      → Later seen k
      → unseen seen < fuel
      → done_loop fuel tasks seen id ≡ some true
  loop_complete zero seen k id d later h = absurd (omega arith)
  loop_complete (suc fuel) seen zero id d later h =
      let (named, v) = Done-Shows d in
      loop_done fuel seen id (Done-unseen seen zero id d later named) v
  loop_complete (suc fuel) seen (suc k) id d later h =
      let (named, shown) = Done-Shows d in
      let (r, v, rest) = shown in
      let on = Done-unseen seen (suc k) id d later named in
      loop_follow fuel seen id r on v
      ∙ loop_complete fuel (id ∷ seen) k r rest (Later-cons seen k id d later)
          (omega (arith, unseen-falls seen id r on v))

  -- A dependency counts as done exactly when its chain of replacements ends in a task that
  -- succeeded or that was dropped. The search for the end always stops, cycles included.
  pub dependency_done_iff : (id : String) → (dependency_done tasks id ≡ true) ↔ IsDone id
  unfolding dependency_done
  dependency_done_iff id = (sound, complete)
    where
      ends : (b : Bool) × (done_loop (length tasks + 1) tasks [] id ≡ some b)
      ends = loop_ends (length tasks + 1) [] id (omega (arith, weight-none tasks))

      sound : dependency_done tasks id ≡ true → IsDone id
      sound h = loop_sound (length tasks + 1) [] id (ground (arith, ends.1))

      complete : IsDone id → dependency_done tasks id ≡ true
      complete (k, d) = ground (
        arith,
        loop_complete (length tasks + 1) [] k id d (λ a m e _. absurd (unfold elem in cc))
            (omega (arith, weight-none tasks)),
      )
