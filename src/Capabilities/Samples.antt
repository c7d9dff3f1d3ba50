-- ===== src/Capabilities/Samples.antt =====
-- The theorems on capability matching applied to a registry.
use hermes_lab.Prelude.{arith, some, ◌≡◌, refl, String, none, List, [], ◌∷◌, true}
use hermes_lab.Dict.{Dict, lookup}
use hermes_lab.Capabilities.Defs.{
  CapabilityRegistry, Profile, Search, no_match, selected, find_actors, is_eligible, select_actor,
  decide, gather, ranked_of, before, insert_ranked, sort_ranked, cleaned, get_actor_capabilities,
}
use hermes_lab.Capabilities.Ranking.{AreObjects, is_best, select_actor-best}

abbrev strip_none : String → String
strip_none s = s

abbrev defaults : Dict (List String)
defaults = ("codex", "edit" ∷ "test" ∷ []) ∷ []

abbrev profile_of : String → List String → Profile
profile_of id caps = record { id = id; capabilities = caps; dict_text = none }

abbrev registry : CapabilityRegistry
registry = record {
  actors =
      ("codex", profile_of "codex" ("edit" ∷ "test" ∷ []))
      ∷ ("gemini", profile_of "gemini" ("edit" ∷ []))
      ∷ ("claude", profile_of "claude" ("test" ∷ "edit" ∷ "review" ∷ []))
      ∷ [];
}

abbrev search : Search
search = record {
  required = "edit" ∷ "test" ∷ [];
  preferred_actors = "gemini" ∷ "claude" ∷ [];
  excluded = [];
  available = none;
}

select_actor_run :
    select_actor strip_none defaults search registry ≡ selected "claude" 1 ("edit" ∷ "test" ∷ [])
unfolding decide lookup select_actor find_actors gather ranked_of before insert_ranked sort_ranked
    cleaned is_eligible get_actor_capabilities
select_actor_run = refl

select_actor_excluded :
    select_actor strip_none defaults (record search { excluded = "claude" ∷ "codex" ∷ [] }) registry
    ≡ no_match ("edit" ∷ "test" ∷ [])
unfolding decide lookup select_actor find_actors gather ranked_of before insert_ranked sort_ranked
    cleaned is_eligible get_actor_capabilities
select_actor_excluded = refl

-- A dict profile is selected under the text of the whole dict.
select_actor_dict :
    select_actor strip_none defaults search (record {
      actors =
          (
            "claude",
            record (profile_of "claude" ("edit" ∷ "test" ∷ [])) {
              dict_text = some "{'id': 'claude'}";
            },
          )
          ∷ [];
    })
    ≡ selected "{'id': 'claude'}" 1 ("edit" ∷ "test" ∷ [])
unfolding select_actor find_actors gather ranked_of before insert_ranked sort_ranked cleaned
    is_eligible get_actor_capabilities decide lookup
select_actor_dict = refl

registry_objects : AreObjects strip_none defaults registry
unfolding lookup
registry_objects id p e = ground (arith, e)

select_actor-best_example :
    is_best strip_none defaults search registry (select_actor strip_none defaults search registry)
    ≡ true
select_actor-best_example =
    select_actor-best strip_none defaults (λ s. refl) search registry registry_objects
