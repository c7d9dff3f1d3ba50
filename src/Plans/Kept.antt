-- ===== src/Plans/Kept.antt =====
-- runtime/planning/validator.py: the search for cycles forgets no cycle that it reported.
use hermes_lab.Prelude.{
  ℕ, zero, suc, ◌≡◌, refl, String, Option, none, some, List, [], ◌∷◌, ◌++◌, Bool, true, false, not,
  ◌||◌, arith,
}
use hermes_lab.Dict.{Dict}
use hermes_lab.Plans.Defs.{is_nil}
use hermes_lab.Plans.Orders.{is_nil-report}
use hermes_lab.Plans.Cycles.{Seen, neighbours, paint, report, go_on, scan, has_cycle}

module _ (graph : Dict (List String)) where
  -- No cycle is forgotten.
  unfoldable pub kept : Seen → Option (Bool × Seen) → Bool
  kept s none = true
  kept s (some (found, s')) = not (is_nil s'.cycles) || is_nil s.cycles

  kept_trans :
      (s s' : Seen) (r : Option (Bool × Seen))
      → kept s (some (false, s')) ≡ true
      → kept s' r ≡ true
      → kept s r ≡ true
  unfolding kept
  kept_trans s s' none k k' = refl
  kept_trans s s' (some (found, s'')) k k' = ground (arith, k, k')

  kept-go_on :
      (s : Seen) (r : Option (Bool × Seen)) (next : Seen → Option (Bool × Seen))
      → kept s r ≡ true
      → ((s' : Seen) → kept s' (next s') ≡ true)
      → kept s (go_on r next) ≡ true
  unfolding kept go_on
  kept-go_on s none next k f = refl
  kept-go_on s (some (true, s')) next k f = k
  kept-go_on s (some (false, s')) next k f = kept_trans s s' (next s') k (f s')

  kept-scan :
      (look : String → List String → Seen → Option (Bool × Seen))
      → ((x : String) (path : List String) (s : Seen) → kept s (look x path s) ≡ true)
      → (curr : String) (path xs : List String) (s : Seen)
      → kept s (scan look curr path xs s) ≡ true
  unfolding scan
  kept-scan look k curr path [] s = unfold kept paint in ground arith
  kept-scan look k curr path (x ∷ xs) s =
      let told : kept s (some (true, report (path ++ x ∷ []) s)) ≡ true =
        unfold kept in ground (arith, is_nil-report (path ++ x ∷ []) s) in
      ground (
        arith,
        told,
        kept-scan look k curr path xs s,
        kept-go_on s (look x (path ++ x ∷ []) s) (scan look curr path xs) (k x (path ++ x ∷ []) s)
            (kept-scan look k curr path xs),
      )

  pub kept-has_cycle :
      (n : ℕ) (x : String) (path : List String) (s : Seen)
      → kept s (has_cycle n graph x path s) ≡ true
  unfolding has_cycle
  kept-has_cycle zero x path s = unfold kept in refl
  kept-has_cycle (suc n) x path s =
      kept_trans s (paint x 1 s) (has_cycle (suc n) graph x path s)
        (unfold kept paint in ground arith)
        (kept-scan (has_cycle n graph) (kept-has_cycle n) x path (neighbours graph x) (paint x 1 s))
