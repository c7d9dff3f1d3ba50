-- ===== src/TaskGraph/Ready.antt =====
-- What `find_ready_tasks` and `is_stalled` promise to the scheduler.
use mathlib.Core.List.{Memᴰ}
use hermes_lab.Prelude.{
  ℕ, zero, suc, eq_refl, ok, String-cases, ◌∙◌, String, ◌≡◌, ◌↔◌, refl, some, List, [], ◌∷◌, Bool,
  true, false, arith, eq_iff, elem, keep, all, inl, inr, ◌⊎◌, if◌then◌else◌,
}
use hermes_lab.Dict.{Dict, lookup, values, modify}
use hermes_lab.Dict.Laws.{lookup-modify}
use hermes_lab.Task.{Value, TaskNode, pending, ready, succeeded}
use hermes_lab.TaskGraph.Defs.{TaskGraph, update_task, update_task-eq-ok, finish, mark_success}
use hermes_lab.TaskGraph.Queries.{dependency_done, is_runnable, find_ready_tasks}
use hermes_lab.TaskGraph.Done.{Done, success, dropped, replaced, IsDone, dependency_done_iff}

module _ {ℓ} {A : Type ℓ} (p : A → Bool) {a : A} where
  mem-if :
      (x : A) (rest : List A) (b : Bool)
      → p x ≡ b
      → Memᴰ a (if b then x ∷ rest else rest)
      → (a ≡ x) × (p x ≡ true) ⊎ Memᴰ a rest
  mem-if x rest true e (Memᴰ.head q) = inl (q, e)
  mem-if x rest true e (Memᴰ.tail m) = inr m
  mem-if x rest false e m = inr m

  if-mem : (x : A) (rest : List A) (b : Bool) → Memᴰ a rest → Memᴰ a (if b then x ∷ rest else rest)
  if-mem x rest true m = Memᴰ.tail m
  if-mem x rest false m = m

  mem-keep : (xs : List A) → Memᴰ a (keep p xs) → Memᴰ a xs × (p a ≡ true)
  unfolding keep
  mem-keep [] m = elim m [ ]
  mem-keep (x ∷ xs) m = elim (mem-if x (keep p xs) (p x) refl m) [
    | inl (q, e) ↦ (Memᴰ.head q, rw q e)
    | inr m' ↦ let (found, e) = mem-keep xs m' in (Memᴰ.tail found, e)
  ]

  keep-mem : (xs : List A) → Memᴰ a xs → p a ≡ true → Memᴰ a (keep p xs)
  unfolding keep
  keep-mem [] m e = elim m [ ]
  keep-mem (x ∷ xs) (Memᴰ.head q) e = rw (rw q at e, keep) (Memᴰ.head q)
  keep-mem (x ∷ xs) (Memᴰ.tail m) e = if-mem x (keep p xs) (p x) (keep-mem xs m e)

all→elem :
    (p : String → Bool) (xs : List String)
    → all p xs ≡ true
    → (s : String) → elem s xs ≡ true
    → p s ≡ true
unfolding all elem
all→elem p [] h s m = absurd (cc)
all→elem p (x ∷ xs) h s m = ground (arith, eq_iff x s, all→elem p xs (ground arith) s)

elem→all :
    (p : String → Bool) (xs : List String)
    → ((s : String) → elem s xs ≡ true → p s ≡ true)
    → all p xs ≡ true
unfolding all elem
elem→all p [] h = refl
elem→all p (x ∷ xs) h = ground (arith, eq_refl x, h x, elem→all p xs (λ s m. h s (ground arith)))

-- READY, or PENDING with every dependency done.
abbrev pub Eligible : Dict TaskNode → TaskNode → Type 0
Eligible tasks t =
    (t.status ≡ ready)
    ⊎ (t.status ≡ pending) × ((id : String) → elem id t.dependencies ≡ true → IsDone tasks id)

runnable_cases :
    (tasks : Dict TaskNode) (t : TaskNode)
    → is_runnable tasks t ≡ true
    → (t.status ≡ ready)
      ⊎ (t.status ≡ pending) × (all (dependency_done tasks) t.dependencies ≡ true)
unfolding is_runnable
runnable_cases tasks t h = ground arith

runnable_of_pending :
    (tasks : Dict TaskNode) (t : TaskNode)
    → t.status ≡ pending
    → all (dependency_done tasks) t.dependencies ≡ true
    → is_runnable tasks t ≡ true
unfolding is_runnable
runnable_of_pending tasks t p h = ground arith

is_runnable_iff :
    (tasks : Dict TaskNode) (t : TaskNode) → (is_runnable tasks t ≡ true) ↔ Eligible tasks t
is_runnable_iff tasks t = (sound, complete)
  where
    sound : is_runnable tasks t ≡ true → Eligible tasks t
    sound h = elim (runnable_cases tasks t h) [
      | inl r ↦ inl r
      | inr (p, deps) ↦ inr (
        p,
        λ id m.
            (dependency_done_iff tasks id).0
              (all→elem (dependency_done tasks) t.dependencies deps id m),
      )
    ]

    complete : Eligible tasks t → is_runnable tasks t ≡ true
    complete (inl r) = unfold is_runnable in ground arith
    complete (inr (p, deps)) = runnable_of_pending tasks t p (
        elem→all (dependency_done tasks) t.dependencies
          (λ id m. (dependency_done_iff tasks id).1 (deps id m)))

-- `find_ready_tasks` lists exactly the tasks of the graph that are READY, or that are PENDING and
-- have every dependency done.
pub find_ready_tasks_iff :
    (g : TaskGraph) (t : TaskNode)
    → Memᴰ t (find_ready_tasks g) ↔ Memᴰ t (values g.tasks) × Eligible g.tasks t
unfolding find_ready_tasks
find_ready_tasks_iff g t = (sound, complete)
  where
    sound : Memᴰ t (find_ready_tasks g) → Memᴰ t (values g.tasks) × Eligible g.tasks t
    sound m =
        let (found, e) = mem-keep (is_runnable g.tasks) (values g.tasks) m in
        (found, (is_runnable_iff g.tasks t).0 e)

    complete : Memᴰ t (values g.tasks) × Eligible g.tasks t → Memᴰ t (find_ready_tasks g)
    complete (m, e) =
        keep-mem (is_runnable g.tasks) (values g.tasks) m ((is_runnable_iff g.tasks t).1 e)

module _ (now : ℕ) (id : String) (artifacts : List Value) (metadata : Dict Value) (g h : TaskGraph)
    (e : update_task id (finish now artifacts metadata) g ≡ ok h) where
  lookup-success :
      (k : String) (n : TaskNode)
      → lookup k g.tasks ≡ some n
      → (m : TaskNode) × (lookup k h.tasks ≡ some m)
        × ((m.status ≡ succeeded) ⊎ (m.status ≡ n.status))
        × (m.superseded_by ≡ n.superseded_by)
  lookup-success k n found =
      let f = finish now artifacts metadata in
      let same : h.tasks ≡ modify id f g.tasks = update_task-eq-ok id f g h e in
      elim (String-cases id k) [
        | inl (at, _) ↦ (
          f n,
          rw same (ground (arith, lookup-modify id k f g.tasks)),
          inl (unfold finish in refl),
          unfold finish in refl,
        )
        | inr (off, _) ↦ (n, rw same (ground (arith, lookup-modify id k f g.tasks)), inr refl, refl)
      ]

  Done-success : {j : ℕ} {k : String} → Done g.tasks j k → IsDone h.tasks k
  Done-success {k = k} (success {n = n} named found s) =
      let (m, there, status, by) = lookup-success k n found in
      (zero, success named there (ground arith))
  Done-success {k = k} (dropped {n = n} named found s t) =
      let (m, there, status, by) = lookup-success k n found in
      elim status [
        | inl done ↦ (zero, success named there done)
        | inr same ↦ (zero, dropped named there (same ∙ s) (rw by t))
      ]
  Done-success {k = k} (replaced {n = n} named found s t d) =
      let (m, there, status, by) = lookup-success k n found in
      elim status [
        | inl done ↦ (zero, success named there done)
        | inr same ↦
            let (j, d') = Done-success d in (suc j, replaced named there (same ∙ s) (rw by t) d')
      ]

-- `mark_success` on any task undoes no finished dependency: what was done stays done.
pub mark_success-IsDone :
    (now : ℕ) (id : String) (artifacts : List Value) (metadata : Dict Value) (g h : TaskGraph)
    (k : String)
    → mark_success now id artifacts metadata g ≡ ok h
    → IsDone g.tasks k
    → IsDone h.tasks k
mark_success-IsDone now id artifacts metadata g h k e (j, d) =
    Done-success now id artifacts metadata g h (unfold mark_success in e) d
