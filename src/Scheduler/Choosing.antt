-- ===== src/Scheduler/Choosing.antt =====
-- runtime/scheduler.py: `match_actor_for_task` as a whole, and its choice among ranked candidates.
use hermes_lab.Prelude.{
  ℕ, String, Option, none, some, List, [], ◌∷◌, map, true, not, ◌==◌, ◌&&◌, if◌then◌else◌, ltb,
  truthy, keep, elem, length,
}
use hermes_lab.Dict.{Dict, keys}
use hermes_lab.Task.{TaskNode}
use hermes_lab.Capabilities.{Ranked, actor_satisfies, get_actor_capabilities}
use hermes_lab.Scheduler.Slots.{Slots}
use hermes_lab.Scheduler.Routing.{Services, is_actor_available}
use hermes_lab.Scheduler.Reasons.{
  Reason, no_capable_actor, deferred, ranked, healthy, at_capacity, Refusal, lacks, rejected,
  degraded, lower_score, DispatchDecision, Setting, refuse,
}
use hermes_lab.Scheduler.Matching.{
  get_actor_rejection_reason, candidates, match_assigned, keep_available, keep_healthy, reject_all,
}

abbrev pub ids : List Ranked → List String
ids = map (λ (r : Ranked). r.actor_id)

module _ (set : Setting) (now : ℕ) (slots : Slots) where
  -- The registered actors that lack a capability of the task.
  unfoldable pub lacking : List String → List String → Dict Refusal
  unfolding get_actor_capabilities elem keep
  lacking required [] = []
  lacking required (id ∷ others) =
      let missing =
        keep (λ c. not (elem c (get_actor_capabilities set.strip set.defaults id set.registry)))
          required in
      let rest = lacking required others in
      elim missing [ [] ↦ rest | c ∷ cs ↦ (id, lacks (c ∷ cs)) ∷ rest ]

  -- The `rejected` of a selection: why the other candidates were not taken. `able` are the available
  -- candidates, `well` those of them with soft capacity.
  unfoldable pub explain :
      String → List String → List String → List Ranked → Services → Services × Dict Refusal
  unfolding get_actor_rejection_reason is_actor_available elem
  explain chosen able well [] v = (v, [])
  explain chosen able well (r ∷ rs) v =
      let (v1, free) = is_actor_available now r.actor_id slots v in
      let (v2, why) = get_actor_rejection_reason set now slots r.actor_id v1 in
      let short = elem r.actor_id able && not (elem r.actor_id well) in
      let note = if short && ltb 0 (length well) then degraded else lower_score in
      let is_chosen = r.actor_id == chosen in
      let (w, rest) =
        explain chosen able well rs (if is_chosen then v else if free then v1 else v2) in
      (w, if is_chosen then rest else (r.actor_id, if free then note else rejected why) ∷ rest)

  -- The decision for the best candidate.
  unfoldable pub take_best :
      Reason
      → Ranked
      → List Ranked
      → List Ranked
      → List Ranked
      → Services
      → Services × DispatchDecision
  unfolding explain
  take_best why best everyone able well v =
      let (v', others) = explain best.actor_id (ids able) (ids well) everyone v in
      (
        v',
        record {
          actor = some best.actor_id;
          dispatched = true;
          reason = why;
          matched = best.matched;
          rejected_candidates = others;
        },
      )

  abbrev pub primary : Dict Refusal → Reason
  primary ((id, rejected why) ∷ rest) = deferred why
  primary _ = deferred at_capacity

  abbrev pub first_matched : List Ranked → List String
  first_matched [] = []
  first_matched (r ∷ rs) = r.matched

  -- The best of the candidates that are available: the first healthy one, or else the first.
  unfoldable pub select :
      List Ranked → List Ranked → List Ranked → Services → Services × DispatchDecision
  unfolding take_best reject_all refuse
  select everyone [] well v =
      let (v', others) = reject_all set now slots everyone v in
      (v', refuse (primary others) (first_matched everyone) others)
  select everyone (a ∷ more) [] v = take_best ranked a everyone (a ∷ more) [] v
  select everyone (a ∷ more) (w ∷ ws) v =
      take_best (if ltb (length (w ∷ ws)) (length (a ∷ more)) then healthy else ranked) w everyone
        (a ∷ more) (w ∷ ws) v

  unfoldable pub match_among : TaskNode → List Ranked → Services → Services × DispatchDecision
  unfolding lacking refuse keep_available keep_healthy select
  match_among t [] v =
      (v, refuse no_capable_actor [] (lacking t.required_capabilities (keys set.registry.actors)))
  match_among t (r ∷ rs) v =
      let (v1, able) = keep_available set now slots (r ∷ rs) v in
      let (v2, well) = keep_healthy set now slots t able v1 in select (r ∷ rs) able well v2

  unfoldable pub match_ranked :
      TaskNode → List String → List String → Services → Services × DispatchDecision
  unfolding candidates match_among
  match_ranked t preferred excluded v =
      match_among t (candidates set now slots t preferred excluded) v

  unfoldable pub match_for :
      TaskNode → List String → List String → Option String → Services → Services × DispatchDecision
  unfolding match_ranked match_assigned actor_satisfies
  match_for t preferred excluded none v = match_ranked t preferred excluded v
  match_for t preferred excluded (some actor) v =
      if actor_satisfies set.strip set.defaults actor t.required_capabilities set.registry
      then match_assigned set now slots t actor v
      else match_ranked t preferred excluded v

  unfoldable pub match_actor_for_task :
      TaskNode → List String → List String → Services → Services × DispatchDecision
  unfolding match_for
  match_actor_for_task t preferred excluded v =
      match_for t preferred excluded (truthy t.assigned_actor) v
