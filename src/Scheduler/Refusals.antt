-- ===== src/Scheduler/Refusals.antt =====
-- runtime/scheduler.py: when a task is refused for want of a capable actor.
use hermes_lab.Prelude.{
  ℕ, ◌≡◌, refl, sym, ◌∙◌, String, Option, none, some, List, [], ◌∷◌, true, false, ◌&&◌, truthy, any,
  arith,
}
use hermes_lab.Dict.{Dict, has}
use hermes_lab.Task.{TaskNode}
use hermes_lab.Capabilities.{Ranked, Search, is_eligible}
use hermes_lab.Capabilities.Eligible.{lists, find_actors_iff}
use hermes_lab.Scheduler.Slots.{Slots}
use hermes_lab.Scheduler.Routing.{Services, is_actor_available}
use hermes_lab.Scheduler.Reasons.{
  Rejection, Refusal, is_no_capable, DispatchDecision, Setting, refuse,
}
use hermes_lab.Scheduler.Matching.{
  get_actor_rejection_reason, soft, candidates, alternative, send, reroute_or_defer,
  when_unavailable, choose_other, when_available, match_assigned, keep_available, keep_healthy,
  reject_all,
}
use hermes_lab.Scheduler.Choosing.{
  primary, select, take_best, match_among, match_ranked, match_for, match_actor_for_task,
}

module _ (set : Setting) (now : ℕ) (slots : Slots) (t : TaskNode) where
  -- The decision is not that nobody can do the task.
  abbrev Able : DispatchDecision → Type 0
  Able d = is_no_capable d.reason ≡ false

  defers : (others : Dict Refusal) → is_no_capable (primary set now slots others) ≡ false
  defers [] = refl
  defers ((id, Refusal.rejected why) ∷ rest) = refl
  defers ((id, Refusal.lacks cs) ∷ rest) = refl
  defers ((id, Refusal.degraded) ∷ rest) = refl
  defers ((id, Refusal.lower_score) ∷ rest) = refl

  select-Able :
      (everyone able well : List Ranked) (v : Services)
      → Able (select set now slots everyone able well v).1
  unfolding select take_best refuse
  select-Able everyone [] well v = defers (reject_all set now slots everyone v).1
  select-Able everyone (a ∷ others) [] v = refl
  select-Able everyone (a ∷ others) (w ∷ ws) v = ground arith

  reroute-Able :
      (why : Rejection) (o : Option String) → Able (reroute_or_defer set now slots t why o)
  unfolding reroute_or_defer refuse send
  reroute-Able why none = refl
  reroute-Able why (some a) = refl

  other-Able :
      (actor : String) (o : Option String) (v : Services)
      → Able (choose_other set now slots t actor o v).1
  unfolding choose_other send
  other-Able actor none v = refl
  other-Able actor (some a) v = ground arith

  assigned-Able : (actor : String) (v : Services) → Able (match_assigned set now slots t actor v).1
  unfolding match_assigned when_available when_unavailable send refuse
  assigned-Able actor v =
      let v' = (is_actor_available now actor slots v).0 in
      let (v1, why) = get_actor_rejection_reason set now slots actor v' in
      let v2 = (soft set now slots t actor v').0 in
      let other = alternative set now slots t (actor ∷ []) v2 in
      ground (
        arith,
        reroute-Able why (truthy (alternative set now slots t (actor ∷ []) v1).1),
        other-Able actor (truthy other.1) other.0,
      )

  -- The search that the scheduler makes for a task.
  abbrev pub search_for : List String → List String → Search
  search_for preferred excluded = record {
    required = t.required_capabilities;
    preferred_actors = preferred;
    excluded = excluded;
    available = none;
  }

  among-empty :
      (id : String) (xs : List Ranked) (v : Services)
      → is_no_capable (match_among set now slots t xs v).1.reason ≡ true
      → lists id xs ≡ false
  unfolding match_among lists any
  among-empty id [] v e = refl
  among-empty id (x ∷ xs) v e =
      let able = keep_available set now slots (x ∷ xs) v in
      let well = keep_healthy set now slots t able.1 able.0 in
      ground (arith, e, select-Able (x ∷ xs) able.1 well.1 well.0)

  for-nobody :
      (preferred excluded : List String) (id : String) (o : Option String) (v : Services)
      → is_no_capable (match_for set now slots t preferred excluded o v).1.reason ≡ true
      → lists id (candidates set now slots t preferred excluded) ≡ false
  unfolding match_for match_ranked
  for-nobody preferred excluded id none v e =
      among-empty id (candidates set now slots t preferred excluded) v e
  for-nobody preferred excluded id (some actor) v e = ground (
    arith,
    e,
    assigned-Able actor v,
    among-empty id (candidates set now slots t preferred excluded) v,
  )

  -- Where `match_actor_for_task` says that there is no capable actor, no registered actor that is not
  -- excluded has every capability that the task requires.
  pub match_actor_for_task-nobody :
      (preferred excluded : List String) (v : Services) (id : String)
      → is_no_capable (match_actor_for_task set now slots t preferred excluded v).1.reason ≡ true
      → (has id set.registry.actors
          && is_eligible set.strip set.defaults (search_for preferred excluded) set.registry id)
        ≡ false
  unfolding match_actor_for_task candidates
  match_actor_for_task-nobody preferred excluded v id e =
      sym (find_actors_iff set.strip set.defaults (search_for preferred excluded) set.registry id)
      ∙ for-nobody preferred excluded id (truthy t.assigned_actor) v e
