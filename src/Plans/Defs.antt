-- ===== src/Plans/Defs.antt =====
-- runtime/planning/validator.py: `PlanValidator.validate`, and the parts of a plan that it reads.
-- The functions of Python's `str` are parameters. The repository is a test of paths, `_ref_exists`
-- on its directory, and absent where no directory is given or it does not exist.
use hermes_lab.Prelude.{
  ℕ, String, Option, none, some, List, [], ◌∷◌, ◌++◌, Bool, true, false, not, ◌==◌, ◌&&◌, ◌||◌,
  if◌then◌else◌, any, all, elem,
}
use hermes_lab.Dict.{Dict, has, insert, values}

-- PlannedTask
pub record PlannedTask : Type 0 where
  pub task_id : String
  pub description : String
  pub dependencies : List String
  pub required_capabilities : List String
  pub acceptance_criteria : List String
  pub verification : List String
  pub risk : String
  pub evidence_refs : List String
  pub evidence_status : String

-- The messages of the validator, by what they report.
pub data Problem : Type 0 where
  no_tasks : Problem
  too_many_tasks : Problem
  empty_id : Problem
  duplicate_id : String → Problem
  empty_description : String → Problem
  invalid_risk : String → Problem
  no_capabilities : String → Problem
  no_dispatchable : String → Problem
  unknown_capability : String → String → Problem
  no_single_agent : String → Problem
  no_evidence : String → Problem
  missing_path : String → String → Problem
  self_dependency : String → Problem
  missing_dependency : String → String → Problem
  cycle : List String → Problem
  no_final_check : Problem

-- The arguments of the validator besides the plan.
pub record Bounds : Type 0 where
  pub max_initial_tasks : ℕ
  pub available : Option (List String)
  pub agents : Dict (List String)
  pub ref_exists : Option (String → Bool)

-- The functions of `str`: strip, lower, `in` and startswith, the last two with the part first.
pub record Texts : Type 0 where
  pub strip : String → String
  pub lower : String → String
  pub within : String → String → Bool
  pub starts : String → String → Bool

abbrev pub when : Bool → Problem → List Problem
when b p = if b then p ∷ [] else []

abbrev pub is_nil {ℓ} : {A : Type ℓ} → List A → Bool
is_nil [] = true
is_nil (x ∷ xs) = false

module _ (py : Texts) (bounds : Bounds) where
  -- The inner loop over required capabilities.
  abbrev pub unknown_capabilities : String → List String → List String → List Problem
  unfolding elem any
  unknown_capabilities tid avail [] = []
  unknown_capabilities tid avail (cap ∷ caps) =
      let rest = unknown_capabilities tid avail caps in
      if elem cap avail || any (λ a. py.starts a cap || py.starts cap a) avail
      then rest
      else unknown_capability tid cap ∷ rest

  abbrev pub capability_problems : String → List String → Option (List String) → List Problem
  unfolding unknown_capabilities
  capability_problems tid [] avail = no_capabilities tid ∷ []
  capability_problems tid (cap ∷ caps) none = []
  capability_problems tid (cap ∷ caps) (some []) = no_dispatchable tid ∷ []
  capability_problems tid (cap ∷ caps) (some (a ∷ avail)) =
      unknown_capabilities tid (a ∷ avail) (cap ∷ caps)

  -- No agent has all capabilities of the task.
  abbrev pub lacks_agent : PlannedTask → Bool
  unfolding any all elem
  lacks_agent t =
      not (is_nil t.required_capabilities)
      && not (is_nil bounds.agents)
      && not (
          any (λ caps. all (λ c. elem (py.strip c) caps) t.required_capabilities)
            (values bounds.agents))

  abbrev pub missing_paths : String → String → (String → Bool) → List String → List Problem
  missing_paths tid status exists [] = []
  missing_paths tid status exists (ref ∷ refs) =
      let path = py.strip ref in
      let rest = missing_paths tid status exists refs in
      if path == "" || py.lower path == "new_component" || exists path || status == "new_component"
      then rest
      else missing_path tid path ∷ rest

  abbrev pub path_problems : String → PlannedTask → Option (String → Bool) → List Problem
  path_problems tid t none = []
  path_problems tid t (some exists) = missing_paths tid t.evidence_status exists t.evidence_refs

  -- What the loop over the tasks reports of one with an id.
  unfoldable pub task_problems : String → PlannedTask → List Problem
  unfolding capability_problems lacks_agent
  task_problems tid t =
      when (py.strip t.description == "") (empty_description tid)
      ++ when (not (t.risk == "low" || t.risk == "medium" || t.risk == "high")) (invalid_risk tid)
      ++ capability_problems tid t.required_capabilities bounds.available
      ++ when (lacks_agent t) (no_single_agent tid)
      ++ when
          (is_nil t.verification
            && is_nil t.acceptance_criteria
            && not (py.within "inspect" (py.lower tid))
            && not (py.within "scaffold" (py.lower tid)))
          (no_evidence tid)
      ++ path_problems tid t bounds.ref_exists

  -- A pass of the loop over the tasks: the problems found so far and `task_map`, whose keys are
  -- `task_id_set`.
  unfoldable pub read_task :
      PlannedTask → List Problem × Dict PlannedTask → List Problem × Dict PlannedTask
  unfolding task_problems insert
  read_task t (found, tasks) =
      let tid = py.strip t.task_id in
      if tid == "" then (found ++ empty_id ∷ [], tasks) else (
        found ++ when (has tid tasks) (duplicate_id tid) ++ task_problems tid t,
        insert tid t tasks,
      )

  unfoldable pub read_tasks :
      List PlannedTask → List Problem × Dict PlannedTask → List Problem × Dict PlannedTask
  unfolding read_task
  read_tasks [] read = read
  read_tasks (t ∷ rest) read = read_tasks rest (read_task t read)
