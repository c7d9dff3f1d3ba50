-- ===== src/Capabilities/Defs.antt =====
-- capabilities/capabilities.py: `CapabilityRegistry`. A profile is read for its id and its list of
-- capabilities, each of which is a text or stands for its id. `strip` is Python's, `defaults` is the
-- table DEFAULT_CAPABILITY_PROFILES. The score of an actor is 1, and 10 − index / 10 more where it is
-- preferred; `cost` is what is left of it to 11, in tenths. The published events are not modelled.
use Prim.Native.String.{compare}
use text.Mathlib.Text.{is_le}
use hermes_lab.Prelude.{
  ℕ, suc, String, Option, none, some, List, [], ◌∷◌, map, Bool, true, not, ◌==◌, ◌&&◌, ◌||◌,
  if◌then◌else◌, ltb, eqb, all, keep, elem, length, Result, ok, err, value_error,
}
use hermes_lab.Dict.{Dict, lookup, insert, remove, keys}

-- `dict_text` is `str` of a profile that is a dict, and absent for an object with attributes.
pub record Profile : Type 0 where
  pub id : String
  pub capabilities : List String
  pub dict_text : Option String

pub record CapabilityRegistry : Type 0 where
  pub actors : Dict Profile

-- One entry of the list that `find_actors` returns.
pub record Ranked : Type 0 where
  pub actor_id : String
  pub cost : ℕ
  pub matched : List String
  pub preferred : Bool
  pub total : ℕ

-- The arguments that restrict a search.
pub record Search : Type 0 where
  pub required : List String
  pub preferred_actors : List String
  pub excluded : List String
  pub available : Option (List String)

pub data Decision : Type 0 where
  no_match : List String → Decision
  selected : String → ℕ → List String → Decision

unfoldable pub register_actor : Profile → CapabilityRegistry → Result CapabilityRegistry
register_actor p r =
    if p.id == "" then err value_error else ok (record r { actors = insert p.id p r.actors })

unfoldable pub unregister_actor : String → CapabilityRegistry → CapabilityRegistry
unregister_actor id r = record r { actors = remove id r.actors }

-- The place of a text in a list that has it.
abbrev pub index_of : String → List String → ℕ
index_of s [] = 0
index_of s (x ∷ xs) = if x == s then 0 else suc (index_of s xs)

-- `set(xs)`, for its size
abbrev pub distinct : List String → List String
unfolding elem
distinct [] = []
distinct (x ∷ xs) = let rest = distinct xs in if elem x xs then rest else x ∷ rest

module _ (strip : String → String) (defaults : Dict (List String)) where
  -- `[x.strip() for x in xs if x.strip()]`
  unfoldable pub cleaned : List String → List String
  unfolding keep
  cleaned xs = keep (λ s. not (s == "")) (map strip xs)

  abbrev pub or_defaults : Option (List String) → List String
  or_defaults none = []
  or_defaults (some caps) = caps

  abbrev pub capabilities_of : String → Option Profile → List String
  unfolding lookup
  capabilities_of id none = or_defaults (lookup id defaults)
  capabilities_of id (some p) = map strip p.capabilities

  unfoldable pub get_actor_capabilities : String → CapabilityRegistry → List String
  unfolding lookup
  get_actor_capabilities id r = capabilities_of id (lookup id r.actors)

  unfoldable pub actor_satisfies : String → List String → CapabilityRegistry → Bool
  unfolding get_actor_capabilities all elem
  actor_satisfies id required r =
      all (λ req. elem (strip req) (get_actor_capabilities id r)) required

  abbrev pub is_available : Option (List String) → String → Bool
  unfolding elem
  is_available none id = true
  is_available (some ids) id = elem id (map strip ids)

  -- The three tests of the loop.
  unfoldable pub is_eligible : Search → CapabilityRegistry → String → Bool
  unfolding is_available elem cleaned all get_actor_capabilities
  is_eligible q r id =
      is_available q.available id
      && not (elem id (cleaned q.excluded))
      && all (λ c. elem c (get_actor_capabilities id r)) (cleaned q.required)

  unfoldable pub ranked_of : Search → CapabilityRegistry → String → Ranked
  unfolding cleaned elem distinct get_actor_capabilities keep
  ranked_of q r id =
      let preferred = cleaned q.preferred_actors in
      let caps = get_actor_capabilities id r in
      record {
        actor_id = id;
        cost = if elem id preferred then index_of id preferred else 100;
        matched = keep (λ c. elem c caps) (cleaned q.required);
        preferred = elem id preferred;
        total = length (distinct caps);
      }

  -- The loop over the actors.
  unfoldable pub gather : Search → CapabilityRegistry → List String → List Ranked
  unfolding is_eligible ranked_of
  gather q r [] = []
  gather q r (id ∷ ids) =
      let rest = gather q r ids in if is_eligible q r id then ranked_of q r id ∷ rest else rest

-- The order of the sort: a higher score first, then the id.
unfoldable pub before : Ranked → Ranked → Bool
before a b = ltb a.cost b.cost || (eqb a.cost b.cost && is_le (compare a.actor_id b.actor_id))

unfoldable pub insert_ranked : Ranked → List Ranked → List Ranked
unfolding before
insert_ranked a [] = a ∷ []
insert_ranked a (b ∷ bs) = if before a b then a ∷ b ∷ bs else b ∷ insert_ranked a bs

unfoldable pub sort_ranked : List Ranked → List Ranked
unfolding insert_ranked
sort_ranked [] = []
sort_ranked (a ∷ rest) = insert_ranked a (sort_ranked rest)

module _ (strip : String → String) (defaults : Dict (List String)) where
  unfoldable pub find_actors : Search → CapabilityRegistry → List Ranked
  unfolding gather sort_ranked
  find_actors q r = sort_ranked (gather strip defaults q r (keys r.actors))

  -- `getattr(best_profile, "id", str(best_profile))`: a dict has no such attribute.
  abbrev pub attribute_id : Option Profile → String → String
  attribute_id none id = id
  attribute_id (some p) id = elim p.dict_text [ none ↦ id | some t ↦ t ]

  unfoldable pub decide : CapabilityRegistry → List String → List Ranked → Decision
  unfolding lookup
  decide r required [] = no_match required
  decide r required (a ∷ rest) =
      selected (attribute_id (lookup a.actor_id r.actors) a.actor_id) a.cost a.matched

  unfoldable pub select_actor : Search → CapabilityRegistry → Decision
  unfolding find_actors cleaned decide
  select_actor q r =
      let required = cleaned strip defaults q.required in
      decide r required (find_actors (record q { required = required }) r)
