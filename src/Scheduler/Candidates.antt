-- ===== src/Scheduler/Candidates.antt =====
-- runtime/scheduler.py: the candidates for a task have what the task requires.
use hermes_lab.Prelude.{
  ℕ, ◌≡◌, refl, sym, ap, ◌∙◌, inl, inr, String, Option, none, some, List, [], ◌∷◌, map, Bool, true,
  not, ◌==◌, Option-cases, String-cases, any, all, keep, elem, arith, eq_refl,
}
use hermes_lab.Task.{TaskNode}
use hermes_lab.Capabilities.{
  Ranked, Search, is_eligible, find_actors, get_actor_capabilities, cleaned,
}
use hermes_lab.Capabilities.Eligible.{lists, find_actors_iff}
use hermes_lab.Scheduler.Slots.{Slots}
use hermes_lab.Scheduler.Routing.{Services, is_actor_available}
use hermes_lab.Scheduler.Choice.{find_alternative_actor_sound}
use hermes_lab.Scheduler.Reasons.{Setting, refuse}
use hermes_lab.Scheduler.Matching.{soft, candidates, alternative, keep_available, keep_healthy}
use hermes_lab.Scheduler.Choosing.{select, take_best}

-- Every non-blank capability that the task requires is one of the actor's.
unfoldable pub capable : Setting → TaskNode → String → Bool
unfolding all elem cleaned get_actor_capabilities
capable set t actor =
    all (λ c. elem c (get_actor_capabilities set.strip set.defaults actor set.registry))
      (cleaned set.strip set.defaults t.required_capabilities)

-- Nobody, or an actor that has it all.
unfoldable pub capable_choice : Setting → TaskNode → Option String → Bool
unfolding capable
capable_choice set t none = true
capable_choice set t (some actor) = capable set t actor

-- A list of candidates all of whom have a property.
abbrev pub all_ids : (String → Bool) → List Ranked → Bool
unfolding all
all_ids p = all (λ r. p r.actor_id)

all_ids-lists :
    (p : String → Bool) (xs : List Ranked)
    → ((id : String) → lists id xs ≡ true → p id ≡ true)
    → all_ids p xs ≡ true
unfolding all_ids all lists any
all_ids-lists p [] f = refl
all_ids-lists p (x ∷ xs) f =
    ground (
      arith,
      f x.actor_id,
      eq_refl x.actor_id,
      all_ids-lists p xs (λ id e. f id (ground (arith, e))),
    )

all_ids-elem :
    (p : String → Bool) (a : String) (xs : List Ranked)
    → all_ids p xs ≡ true
    → elem a (map (λ (r : Ranked). r.actor_id) xs) ≡ true
    → p a ≡ true
unfolding all_ids all elem
all_ids-elem p a [] h e = ground (arith, e)
all_ids-elem p a (x ∷ xs) h e = elim (String-cases x.actor_id a) [
  | inl (_, same) ↦ ap p (sym same) ∙ ground (arith, h)
  | inr (off, _) ↦ all_ids-elem p a xs (ground (arith, h)) (ground (arith, e, off))
]

pub all-nonblank :
    (strip : String → String) (caps required : List String)
    → all (λ req. elem (strip req) caps) required ≡ true
    → all (λ c. elem c caps) (keep (λ s. not (s == "")) (map strip required)) ≡ true
unfolding all keep
all-nonblank strip caps [] h = refl
all-nonblank strip caps (x ∷ xs) h = ground (arith, all-nonblank strip caps xs)

module _ (set : Setting) (now : ℕ) (slots : Slots) (t : TaskNode) where
  abbrev pub fit : String → Bool
  unfolding capable
  fit = capable set t

  eligible-capable :
      (q : Search) (id : String)
      → is_eligible set.strip set.defaults q set.registry id ≡ true
      → q.required ≡ t.required_capabilities
      → fit id ≡ true
  unfolding is_eligible capable
  eligible-capable q id e same =
      ap
        (λ required.
          all (λ c. elem c (get_actor_capabilities set.strip set.defaults id set.registry))
            (cleaned set.strip set.defaults required))
        (sym same)
      ∙ ground (arith, e)

  pub candidates-capable :
      (preferred excluded : List String)
      → all_ids fit (candidates set now slots t preferred excluded) ≡ true
  unfolding candidates
  candidates-capable preferred excluded =
      let q : Search = record {
        required = t.required_capabilities;
        preferred_actors = preferred;
        excluded = excluded;
        available = none;
      } in
      all_ids-lists fit (find_actors set.strip set.defaults q set.registry) (λ id e.
        eligible-capable q id
          (ground (arith, e, find_actors_iff set.strip set.defaults q set.registry id)) refl)

  pub keep_available-fit :
      (xs : List Ranked) (v : Services)
      → all_ids fit xs ≡ true
      → all_ids fit (keep_available set now slots xs v).1 ≡ true
  unfolding keep_available all_ids all
  keep_available-fit [] v h = refl
  keep_available-fit (x ∷ xs) v h =
      ground (arith, h, keep_available-fit xs (is_actor_available now x.actor_id slots v).0)

  pub keep_healthy-fit :
      (xs : List Ranked) (v : Services)
      → all_ids fit xs ≡ true
      → all_ids fit (keep_healthy set now slots t xs v).1 ≡ true
  unfolding keep_healthy all_ids all
  keep_healthy-fit [] v h = refl
  keep_healthy-fit (x ∷ xs) v h =
      ground (arith, h, keep_healthy-fit xs (soft set now slots t x.actor_id v).0)

  pub alternative-capable :
      (excluded : List String) (v : Services)
      → capable_choice set t (alternative set now slots t excluded v).1 ≡ true
  unfolding capable_choice alternative
  alternative-capable excluded v =
      let found = alternative set now slots t excluded v in
      elim (Option-cases found.1) [
        | inl e ↦ ap (capable_choice set t) e
        | inr (a, e) ↦
            let (known, allowed, passed) =
              find_alternative_actor_sound set.low_tokens set.low_requests now excluded
                (map (λ (r : Ranked). r.actor_id) (candidates set now slots t [] excluded)) v
                found.0 a (λ i. (found.0, e i)) in
            ap (capable_choice set t) e
            ∙ all_ids-elem fit a (candidates set now slots t [] excluded)
                (candidates-capable [] excluded) known
      ]

  pub select-capable :
      (everyone able well : List Ranked) (v : Services)
      → all_ids fit able ≡ true
      → all_ids fit well ≡ true
      → capable_choice set t (select set now slots everyone able well v).1.actor ≡ true
  unfolding select take_best capable_choice all_ids all refuse
  select-capable everyone [] well v h h' = refl
  select-capable everyone (a ∷ others) [] v h h' = ground (arith, h)
  select-capable everyone (a ∷ others) (w ∷ ws) v h h' = ground (arith, h')
