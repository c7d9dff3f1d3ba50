-- ===== src/Scheduler/Load.antt =====
-- runtime/scheduler.py: an actor that a task is given has a free slot.
use hermes_lab.Prelude.{
  ℕ, ◌≡◌, refl, String, Option, none, some, List, [], ◌∷◌, Bool, true, false, ◌||◌, truthy, all,
  arith,
}
use hermes_lab.Task.{TaskNode}
use hermes_lab.Capabilities.{Ranked}
use hermes_lab.Scheduler.Slots.{Slots}
use hermes_lab.Scheduler.Routing.{Services, load_allows, is_actor_available}
use hermes_lab.Scheduler.Reasons.{Reason, Rejection, DispatchDecision, Setting, refuse}
use hermes_lab.Scheduler.Matching.{
  get_actor_rejection_reason, soft, candidates, alternative, send, reroute_or_defer,
  when_unavailable, choose_other, when_available, match_assigned, keep_available, keep_healthy,
}
use hermes_lab.Scheduler.Choosing.{
  select, take_best, match_among, match_ranked, match_for, match_actor_for_task,
}

-- An actor looked for in place of another.
abbrev pub is_replacement : Reason → Bool
is_replacement (Reason.rerouted why) = true
is_replacement Reason.proactive = true
is_replacement _ = false

module _ (set : Setting) (now : ℕ) (slots : Slots) (t : TaskNode) where
  -- Nobody, a replacement, or an actor below its limit.
  unfoldable pub within_load : Reason → Option String → Bool
  unfolding load_allows
  within_load why none = true
  within_load why (some actor) = is_replacement why || load_allows actor slots

  available-load :
      (actor : String) (v : Services)
      → (is_actor_available now actor slots v).1 ≡ true
      → load_allows actor slots ≡ true
  unfolding is_actor_available
  available-load actor v e = ground (arith, e)

  abbrev all_free : List Ranked → Bool
  unfolding all load_allows
  all_free = all (λ r. load_allows r.actor_id slots)

  keep_available-free :
      (xs : List Ranked) (v : Services) → all_free (keep_available set now slots xs v).1 ≡ true
  unfolding keep_available all_free all
  keep_available-free [] v = refl
  keep_available-free (x ∷ xs) v = ground (
    arith,
    available-load x.actor_id v,
    keep_available-free xs (is_actor_available now x.actor_id slots v).0,
  )

  keep_healthy-free :
      (xs : List Ranked) (v : Services)
      → all_free xs ≡ true
      → all_free (keep_healthy set now slots t xs v).1 ≡ true
  unfolding keep_healthy all_free all
  keep_healthy-free [] v h = refl
  keep_healthy-free (x ∷ xs) v h =
      ground (arith, h, keep_healthy-free xs (soft set now slots t x.actor_id v).0)

  abbrev Kept : DispatchDecision → Type 0
  unfolding within_load
  Kept d = within_load d.reason d.actor ≡ true

  select-Kept :
      (everyone able well : List Ranked) (v : Services)
      → all_free able ≡ true
      → all_free well ≡ true
      → Kept (select set now slots everyone able well v).1
  unfolding select take_best refuse Kept within_load all_free all
  select-Kept everyone [] well v h h' = refl
  select-Kept everyone (a ∷ others) [] v h h' = ground (arith, h)
  select-Kept everyone (a ∷ others) (w ∷ ws) v h h' = ground (arith, h')

  reroute-Kept :
      (why : Rejection) (o : Option String) → Kept (reroute_or_defer set now slots t why o)
  unfolding reroute_or_defer refuse send Kept within_load
  reroute-Kept why none = refl
  reroute-Kept why (some a) = refl

  other-Kept :
      (actor : String) (o : Option String) (v : Services)
      → load_allows actor slots ≡ true
      → Kept (choose_other set now slots t actor o v).1
  unfolding choose_other send Kept within_load
  other-Kept actor none v h = h
  other-Kept actor (some a) v h = ground (arith, h)

  assigned-Kept : (actor : String) (v : Services) → Kept (match_assigned set now slots t actor v).1
  unfolding match_assigned when_available when_unavailable send refuse Kept within_load
  assigned-Kept actor v =
      let v' = (is_actor_available now actor slots v).0 in
      let (v1, why) = get_actor_rejection_reason set now slots actor v' in
      let v2 = (soft set now slots t actor v').0 in
      let other = alternative set now slots t (actor ∷ []) v2 in
      ground (
        arith,
        available-load actor v,
        reroute-Kept why (truthy (alternative set now slots t (actor ∷ []) v1).1),
        other-Kept actor (truthy other.1) other.0,
      )

  among-Kept : (xs : List Ranked) (v : Services) → Kept (match_among set now slots t xs v).1
  unfolding match_among Kept within_load refuse
  among-Kept [] v = refl
  among-Kept (x ∷ xs) v =
      let able = keep_available set now slots (x ∷ xs) v in
      let well = keep_healthy set now slots t able.1 able.0 in
      let free = keep_available-free (x ∷ xs) v in
      select-Kept (x ∷ xs) able.1 well.1 well.0 free (keep_healthy-free able.1 able.0 free)

  for-Kept :
      (preferred excluded : List String) (o : Option String) (v : Services)
      → Kept (match_for set now slots t preferred excluded o v).1
  unfolding match_for match_ranked
  for-Kept preferred excluded none v = among-Kept (candidates set now slots t preferred excluded) v
  for-Kept preferred excluded (some actor) v =
      ground
        (arith, assigned-Kept actor v, among-Kept (candidates set now slots t preferred excluded) v)

  -- An actor that `match_actor_for_task` decides for is below its limit of concurrent tasks, unless
  -- it was looked for in place of the one that the task had.
  pub match_actor_for_task-within_load :
      (preferred excluded : List String) (v : Services)
      → let d = (match_actor_for_task set now slots t preferred excluded v).1 in
        within_load d.reason d.actor ≡ true
  unfolding match_actor_for_task Kept
  match_actor_for_task-within_load preferred excluded v =
      for-Kept preferred excluded (truthy t.assigned_actor) v
