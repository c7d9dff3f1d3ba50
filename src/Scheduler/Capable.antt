-- ===== src/Scheduler/Capable.antt =====
-- runtime/scheduler.py: an actor gets a task only if it has what the task requires.
use hermes_lab.Prelude.{
  ℕ, ◌≡◌, refl, String, Option, none, some, List, [], ◌∷◌, true, truthy, arith,
}
use hermes_lab.Task.{TaskNode}
use hermes_lab.Capabilities.{Ranked, actor_satisfies, get_actor_capabilities, cleaned}
use hermes_lab.Scheduler.Slots.{Slots}
use hermes_lab.Scheduler.Routing.{Services, is_actor_available}
use hermes_lab.Scheduler.Reasons.{Rejection, Setting, refuse}
use hermes_lab.Scheduler.Matching.{
  get_actor_rejection_reason, soft, candidates, alternative, send, reroute_or_defer,
  when_unavailable, choose_other, when_available, match_assigned, keep_available, keep_healthy,
}
use hermes_lab.Scheduler.Candidates.{
  capable, capable_choice, all_ids, fit, all-nonblank, candidates-capable, keep_available-fit,
  keep_healthy-fit, alternative-capable, select-capable,
}
use hermes_lab.Scheduler.Choosing.{match_among, match_ranked, match_for, match_actor_for_task}

module _ (set : Setting) (now : ℕ) (slots : Slots) (t : TaskNode) where
  pub truthy-capable :
      (o : Option String) → capable_choice set t o ≡ true → capable_choice set t (truthy o) ≡ true
  unfolding capable_choice
  truthy-capable none h = refl
  truthy-capable (some a) h = ground (arith, h)

  reroute-capable :
      (why : Rejection) (o : Option String)
      → capable_choice set t o ≡ true
      → capable_choice set t (reroute_or_defer set now slots t why o).actor ≡ true
  unfolding reroute_or_defer send refuse capable_choice
  reroute-capable why none h = refl
  reroute-capable why (some a) h = h

  other-capable :
      (actor : String) (o : Option String) (v : Services)
      → fit set now slots t actor ≡ true
      → capable_choice set t o ≡ true
      → capable_choice set t (choose_other set now slots t actor o v).1.actor ≡ true
  unfolding choose_other send capable_choice
  other-capable actor none v h h' = h
  other-capable actor (some a) v h h' = ground (arith, h, h')

  unavailable-capable :
      (actor : String) (v : Services)
      → capable_choice set t (when_unavailable set now slots t actor v).1.actor ≡ true
  unfolding when_unavailable refuse capable_choice
  unavailable-capable actor v =
      let v' = (get_actor_rejection_reason set now slots actor v).0 in
      let other = (alternative set now slots t (actor ∷ []) v').1 in
      ground (
        arith,
        reroute-capable (get_actor_rejection_reason set now slots actor v).1 (truthy other)
            (truthy-capable other (alternative-capable set now slots t (actor ∷ []) v')),
      )

  available-capable :
      (actor : String) (v : Services)
      → fit set now slots t actor ≡ true
      → capable_choice set t (when_available set now slots t actor v).1.actor ≡ true
  unfolding when_available send capable_choice
  available-capable actor v h =
      let v' = (soft set now slots t actor v).0 in
      let other = alternative set now slots t (actor ∷ []) v' in
      ground (
        arith,
        h,
        other-capable actor (truthy other.1) other.0 h
            (truthy-capable other.1 (alternative-capable set now slots t (actor ∷ []) v')),
      )

  among-capable :
      (xs : List Ranked) (v : Services)
      → all_ids (fit set now slots t) xs ≡ true
      → capable_choice set t (match_among set now slots t xs v).1.actor ≡ true
  unfolding match_among refuse capable_choice
  among-capable [] v h = refl
  among-capable (x ∷ xs) v h =
      let able = keep_available set now slots (x ∷ xs) v in
      let well = keep_healthy set now slots t able.1 able.0 in
      let fine = keep_available-fit set now slots t (x ∷ xs) v h in
      select-capable set now slots t (x ∷ xs) able.1 well.1 well.0 fine
        (keep_healthy-fit set now slots t able.1 able.0 fine)

  assigned-capable :
      (actor : String) (v : Services)
      → fit set now slots t actor ≡ true
      → capable_choice set t (match_assigned set now slots t actor v).1.actor ≡ true
  unfolding match_assigned
  assigned-capable actor v h =
      let v' = (is_actor_available now actor slots v).0 in
      ground (arith, available-capable actor v' h, unavailable-capable actor v')

  ranked-capable :
      (preferred excluded : List String) (v : Services)
      → capable_choice set t (match_ranked set now slots t preferred excluded v).1.actor ≡ true
  unfolding match_ranked
  ranked-capable preferred excluded v =
      among-capable (candidates set now slots t preferred excluded) v
        (candidates-capable set now slots t preferred excluded)

  satisfies-capable :
      (actor : String)
      → actor_satisfies set.strip set.defaults actor t.required_capabilities set.registry ≡ true
      → fit set now slots t actor ≡ true
  unfolding actor_satisfies capable cleaned
  satisfies-capable actor e =
      all-nonblank set.strip (get_actor_capabilities set.strip set.defaults actor set.registry)
        t.required_capabilities e

  for-capable :
      (preferred excluded : List String) (o : Option String) (v : Services)
      → capable_choice set t (match_for set now slots t preferred excluded o v).1.actor ≡ true
  unfolding match_for
  for-capable preferred excluded none v = ranked-capable preferred excluded v
  for-capable preferred excluded (some actor) v = ground (
    arith,
    satisfies-capable actor,
    ranked-capable preferred excluded v,
    assigned-capable actor v,
  )

  -- Whatever actor `match_actor_for_task` decides for, by whichever of its ways, has every
  -- capability that the task requires.
  pub match_actor_for_task-capable :
      (preferred excluded : List String) (v : Services)
      → capable_choice set t (match_actor_for_task set now slots t preferred excluded v).1.actor
        ≡ true
  unfolding match_actor_for_task
  match_actor_for_task-capable preferred excluded v =
      for-capable preferred excluded (truthy t.assigned_actor) v
