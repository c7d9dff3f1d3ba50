-- ===== src/Engine/Histories.antt =====
-- runtime/engine.py: how often `_repair_failed_verdict` sends one check back.
use mathlib.Core.List
use hermes_lab.Prelude.{
  ℕ, ◌+◌, ◌≤◌, ◌<◌, ◌≡◌, refl, ap, ◌∙◌, String, Option, some, List, [], ◌∷◌, ◌++◌, map, Bool, true,
  false, not, ◌==◌, ◌&&◌, if◌then◌else◌, ltb, length, arith,
}
use hermes_lab.Dict.{Dict, lookup, insert}
use hermes_lab.Dict.Laws.{lookup-insert}
use hermes_lab.Task.{Value, number, text, items, TaskNode}
use hermes_lab.Projection.Payload.{to_items, of_items-to_items}
use hermes_lab.Scheduler.Rounds.{is_true}
use hermes_lab.Engine.Defs.{Env}
use hermes_lab.Engine.Repairs.{
  History, numbers_of, last_of, recorded, diverges, shrank, history_of, set_all, recheck_node,
  recheck_fields, without,
}

-- What a key has after some pairs were set, from what it had.
abbrev latest : String → List (String × Value) → Option Value → Option Value
latest j [] o = o
latest j ((k, v) ∷ kvs) o = latest j kvs (if k == j then some v else o)

numbers_of-map : (ns : List ℕ) → numbers_of (List.map number ns) ≡ ns
numbers_of-map [] = refl
numbers_of-map (n ∷ ns) = ap (λ ms. n ∷ ms) (numbers_of-map ns)

recorded-append :
    (ns : List ℕ) (n : ℕ) (v : Option Value) → recorded (ns ++ n ∷ []) v ≡ ns ++ n ∷ []
recorded-append [] n v = refl
recorded-append (m ∷ ns) n v = refl

last_of-append : (ns : List ℕ) (n : ℕ) → last_of (ns ++ n ∷ []) ≡ some n
last_of-append [] n = refl
last_of-append (m ∷ []) n = refl
last_of-append (m ∷ l ∷ ns) n = last_of-append (l ∷ ns) n

module _ (env : Env) (now : ℕ) where
  lookup-set_all :
      (j : String) (kvs : List (String × Value)) (d : Dict Value)
      → lookup j (set_all env now kvs d) ≡ latest j kvs (lookup j d)
  unfolding set_all
  lookup-set_all j [] d = refl
  lookup-set_all j ((k, v) ∷ kvs) d =
      lookup-set_all j kvs (insert k v d) ∙ ap (latest j kvs) (lookup-insert k j v d)

  -- The history that a check is sent back with.
  abbrev pub onward : History → ℕ → History
  onward h n = record {
    root = h.root;
    counts = h.counts ++ n ∷ [];
    cycle = h.cycle + 1;
    is_recheck = true;
  }

  read_history :
      (t : TaskNode) (root : String) (ns : List ℕ) (c : ℕ)
      → lookup "repair_root" t.metadata ≡ some (text root)
      → lookup "findings_history" t.metadata ≡ some (items (to_items (List.map number ns)))
      → lookup "repair_cycle" t.metadata ≡ some (number c)
      → is_true (some (text root)) ≡ true
      → history_of env now t ≡ record {
        root = root;
        counts = recorded ns (lookup "prior_findings" t.metadata);
        cycle = c;
        is_recheck = true;
      }
  unfolding history_of
  read_history t root ns c e1 e2 e3 named =
      rw (e1, e2, e3, named, of_items-to_items (List.map number ns), numbers_of-map ns) refl

  -- What `_repair_failed_verdict` writes into the re-check it adds is what it reads when that re-check
  -- has failed in turn, where the check that was first has an id: the first check, the numbers of
  -- findings with the last one at the end, and one cycle more.
  pub history_of-recheck_node :
      (job : String) (t : TaskNode) (h : History) (findings : List Value)
      → is_true (some (text h.root)) ≡ true
      → history_of env now (recheck_node env now job t h findings) ≡ onward h (length findings)
  unfolding recheck_node recheck_fields
  history_of-recheck_node job t h findings named =
      let node = recheck_node env now job t h findings in
      let read = λ (k : String).
        lookup-set_all k (recheck_fields env now t h findings)
          (without ("repair_commit" ∷ "repair_cycle" ∷ "findings_history" ∷ []) t.metadata) in
      read_history node h.root (h.counts ++ length findings ∷ []) (h.cycle + 1) (read "repair_root")
        (read "findings_history") (read "repair_cycle") named
      ∙ ap (λ ns. record (onward h (length findings)) { counts = ns })
          (recorded-append h.counts (length findings) (lookup "prior_findings" node.metadata))

  -- A check and the checks in its place, each ended with some findings: is the work sent back every
  -- time?
  unfoldable pub sent_back : String → TaskNode → List (List Value) → Bool
  unfolding history_of diverges recheck_node
  sent_back job t [] = true
  sent_back job t (findings ∷ later) =
      let h = history_of env now t in
      let rest = sent_back job (recheck_node env now job t h findings) later in
      not (diverges h (length findings)) && rest

  -- Each number is below the one before.
  abbrev pub falls : ℕ → List (List Value) → Bool
  falls n [] = true
  falls n (findings ∷ later) = ltb (length findings) n && falls (length findings) later

  -- A history that is read from a check that was sent back.
  record IsRead (n : ℕ) (t : TaskNode) : Type 0 where
    pub named : is_true (some (text (history_of env now t).root)) ≡ true
    pub again : (history_of env now t).is_recheck ≡ true
    pub last : last_of (history_of env now t).counts ≡ some n

  recheck-IsRead :
      (job : String) (t : TaskNode) (findings : List Value)
      → is_true (some (text (history_of env now t).root)) ≡ true
      → IsRead (length findings) (recheck_node env now job t (history_of env now t) findings)
  recheck-IsRead job t findings named =
      let h = history_of env now t in
      let eq = history_of-recheck_node job t h findings named in
      record {
        named = ap (λ (x : History). is_true (some (text x.root))) eq ∙ named;
        again = ap (λ (x : History). x.is_recheck) eq;
        last =
            ap (λ (x : History). last_of x.counts) eq ∙ last_of-append h.counts (length findings);
      }

  goes_on :
      (x : History) (m n : ℕ)
      → x.is_recheck ≡ true
      → last_of x.counts ≡ some n
      → diverges x m ≡ false
      → (ltb m n ≡ true) × (x.cycle < 5)
  unfolding diverges shrank
  goes_on x m n again last h =
      let fell : ltb m n ≡ true = ground (arith, again, last, h) in
      (fell, ground (arith, again, last, h, fell))

  recheck-cycle :
      (job : String) (t : TaskNode) (findings : List Value)
      → is_true (some (text (history_of env now t).root)) ≡ true
      → (history_of env now (recheck_node env now job t (history_of env now t) findings)).cycle
        ≡ (history_of env now t).cycle + 1
  recheck-cycle job t findings named =
      ap (λ (x : History). x.cycle)
        (history_of-recheck_node job t (history_of env now t) findings named)

  later_falls :
      (job : String) (t : TaskNode) (n : ℕ) (fss : List (List Value))
      → IsRead n t
      → (history_of env now t).cycle ≤ 5
      → sent_back job t fss ≡ true
      → (falls n fss ≡ true) × (length fss + (history_of env now t).cycle ≤ 5)
  unfolding sent_back
  later_falls job t n [] r within h = (refl, omega (arith, within))
  later_falls job t n (findings ∷ later) r within h =
      let x = history_of env now t in
      let node = recheck_node env now job t x findings in
      let going : diverges x (length findings) ≡ false = ground (arith, h) in
      let fell = goes_on x (length findings) n r.again r.last going in
      let cycle = recheck-cycle job t findings r.named in
      let rest =
        later_falls job node (length findings) later (recheck-IsRead job t findings r.named)
          (omega (arith, cycle, fell.1)) (ground (arith, h)) in
      (ground (arith, fell.0, rest.0), omega (arith, cycle, rest.1))

  -- However often a check is done again, its work is sent back at most five times: the numbers of
  -- findings fall from one time to the next, and the fifth re-check is not followed by another.
  pub sent_back-falls :
      (job : String) (t : TaskNode) (findings : List Value) (later : List (List Value))
      → is_true (lookup "repair_root" t.metadata) ≡ false
      → is_true (some (text t.task_id)) ≡ true
      → sent_back job t (findings ∷ later) ≡ true
      → (falls (length findings) later ≡ true) × (length (findings ∷ later) ≤ 5)
  unfolding sent_back
  sent_back-falls job t findings later new named h =
      let root : (history_of env now t).root ≡ t.task_id =
        unfold history_of in ground (arith, new) in
      let cycle : (history_of env now t).cycle ≡ 0 = unfold history_of in ground (arith, new) in
      let named' : is_true (some (text (history_of env now t).root)) ≡ true =
        ap (λ x. is_true (some (text x))) root ∙ named in
      let onward' = recheck-cycle job t findings named' in
      let rest =
        later_falls job (recheck_node env now job t (history_of env now t) findings)
          (length findings) later (recheck-IsRead job t findings named')
          (omega (arith, cycle, onward')) (ground (arith, h)) in
      (rest.0, omega (arith, cycle, onward', rest.1))
