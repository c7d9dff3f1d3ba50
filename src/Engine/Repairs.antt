-- ===== src/Engine/Repairs.antt =====
-- runtime/engine.py: `_repair_failed_verdict`. The descriptions of the new tasks are texts of no effect
-- and are left to `say`; a value that the code takes for a list, a number or a text is read as one.
use Prim.Native.String.{◌++◌}
use mathlib.Core.List
use hermes_lab.Prelude.{◌>>=◌}
use hermes_lab.Prelude.{
  ℕ, ◌+◌, String, Option, none, some, List, [], ◌∷◌, Bool, true, false, not, ◌==◌, ◌&&◌, ◌||◌, min,
  if◌then◌else◌, ltb, leb, length, elem, Result, ok,
}
use hermes_lab.Dict.{Dict, lookup, insert}
use hermes_lab.Task.{Value, number, text, items, object, TaskNode, pending}
use hermes_lab.TaskGraph.{add_task, supersede_task}
use hermes_lab.JobState.{blocked}
use hermes_lab.Projection.Payload.{truth, of_fields, to_items, of_items}
use hermes_lab.Scheduler.Rounds.{is_true}
use hermes_lab.Engine.Defs.{Why, repairs_used, not_converging, Env, Engine, transition_job}

-- TaskExecutionResult, what the engine reads of it
pub record Ended : Type 0 where
  pub task : TaskNode
  pub has_failed : Bool
  pub metadata : Option (Dict Value)
  pub observations : List (String × Bool)

-- `exec_res.metadata or {}`
abbrev pub meta_of : Ended → Dict Value
meta_of x = elim x.metadata [ none ↦ [] | some d ↦ d ]

unfoldable pub or_value : Option Value → Option Value → Option Value
unfolding is_true
or_value a b = if is_true a then a else b

abbrev pub text_of : Option Value → String
text_of (some (text s)) = s
text_of _ = ""

abbrev pub values_of : Option Value → List Value
unfolding of_items
values_of (some (items vs)) = of_items vs
values_of _ = []

abbrev pub fields_of : Option Value → Dict Value
unfolding of_fields
fields_of (some (object fs)) = of_fields fs
fields_of _ = []

abbrev pub numbers_of : List Value → List ℕ
numbers_of [] = []
numbers_of (number n ∷ vs) = n ∷ numbers_of vs
numbers_of (v ∷ vs) = numbers_of vs

abbrev pub number_value : Option Value → Option ℕ
number_value (some (number n)) = some n
number_value _ = none

abbrev pub last_of : List ℕ → Option ℕ
last_of [] = none
last_of (n ∷ []) = some n
last_of (n ∷ m ∷ ns) = last_of (m ∷ ns)

-- The entries whose keys are not in a list.
abbrev pub without : List String → Dict Value → Dict Value
unfolding elem
without ks [] = []
without ks ((k, v) ∷ d) = let rest = without ks d in if elem k ks then rest else (k, v) ∷ rest

unfoldable pub role_of : TaskNode → Option Value
unfolding or_value lookup
role_of t = or_value (lookup "role" t.metadata) (lookup "execution_role" t.metadata)

abbrev pub is_check_role : String → Bool
is_check_role role = role == "verifier" || role == "security"

-- How often the work was sent back, and the numbers of findings so far.
pub record History : Type 0 where
  pub root : String
  pub counts : List ℕ
  pub cycle : ℕ
  pub is_recheck : Bool

abbrev pub recorded : List ℕ → Option Value → List ℕ
recorded [] none = []
recorded [] (some v) = length (values_of (some v)) ∷ []
recorded (n ∷ ns) v = n ∷ ns

abbrev cycle_of : ℕ → Option ℕ → ℕ
cycle_of parsed none = parsed
cycle_of parsed (some n) = n

unfoldable pub shrank : Option ℕ → ℕ → Bool
shrank none current = false
shrank (some before) current = ltb current before

-- `not shrank or prior_cycle >= 5`
unfoldable pub diverges : History → ℕ → Bool
unfolding shrank
diverges h current = h.is_recheck && (not (shrank (last_of h.counts) current) || leb 5 h.cycle)

module _ (env : Env) (now : ℕ) where
  unfoldable pub verdict_of : Dict Value → String
  unfolding or_value lookup fields_of
  verdict_of meta =
      let backend = fields_of (lookup "backend_runtime_metadata" meta) in
      env.setting.lower
        (env.setting.strip (text_of (or_value (lookup "verdict" meta) (lookup "verdict" backend))))

  -- The guards before the repair.
  unfoldable pub is_repairable : Ended → Bool
  unfolding verdict_of role_of is_true lookup
  is_repairable x =
      x.has_failed
      && is_check_role (text_of (role_of x.task))
      && (verdict_of (meta_of x) == "failed" || verdict_of (meta_of x) == "fail")
      && is_true (lookup "repairable" (meta_of x))

  unfoldable pub history_of : TaskNode → History
  unfolding lookup values_of is_true
  history_of t =
      let again = is_true (lookup "repair_root" t.metadata) in
      let known = numbers_of (values_of (lookup "findings_history" t.metadata)) in
      record {
        root = if again then text_of (lookup "repair_root" t.metadata) else t.task_id;
        counts = if again then recorded known (lookup "prior_findings" t.metadata) else [];
        cycle =
            if again
            then cycle_of (env.suffix t.task_id) (number_value (lookup "repair_cycle" t.metadata))
            else 0;
        is_recheck = again;
      }

  unfoldable pub set_all : List (String × Value) → Dict Value → Dict Value
  unfolding insert
  set_all [] d = d
  set_all ((k, v) ∷ kvs) d = set_all kvs (insert k v d)

  abbrev pub repair_id : History → String
  repair_id h = "repair_" ++ h.root ++ "_" ++ env.show (h.cycle + 1)

  abbrev pub recheck_id : History → String
  recheck_id h = "recheck_" ++ h.root ++ "_" ++ env.show (h.cycle + 1)

  abbrev pub fresh_node : String → String → TaskNode
  fresh_node id job = record {
    task_id = id;
    job_id = job;
    description = text_of (some (env.say Why.repairing_again));
    status = pending;
    dependencies = [];
    required_capabilities = [];
    assigned_actor = none;
    parent_task_id = none;
    created_at = now;
    started_at = none;
    completed_at = none;
    attempt = 0;
    max_attempts = 2;
    metadata = [];
    artifact_refs = [];
    error = none;
    superseded_by = none;
    supersede_reason = none;
  }

  unfoldable pub repair_node : String → TaskNode → History → List Value → TaskNode
  unfolding without set_all to_items
  repair_node job t h findings = record (fresh_node (repair_id h) job) {
    required_capabilities = "implementation" ∷ [];
    max_attempts = min 2 env.limits.max_task_attempts;
    metadata =
        set_all
          (("role", text "builder")
            ∷ ("execution_role", text "builder")
            ∷ ("repair_of", text t.task_id)
            ∷ ("findings", items (to_items findings))
            ∷ [])
          (without
            ("role" ∷ "execution_role" ∷ "verification" ∷ "prior_findings" ∷ "findings_history"
              ∷ "repair_cycle" ∷ [])
            t.metadata);
  }

  abbrev pub scope_of : TaskNode → Value
  unfolding lookup
  scope_of t = elim (lookup "original_description" t.metadata) [
    | none ↦ text t.description
    | some v ↦ if truth v then v else text t.description
  ]

  unfoldable pub recheck_fields : TaskNode → History → List Value → List (String × Value)
  unfolding to_items scope_of
  recheck_fields t h findings =
      ("repair_root", text h.root)
      ∷ ("repair_task_id", text (repair_id h))
      ∷ ("original_description", scope_of t)
      ∷ ("prior_findings", items (to_items findings))
      ∷ (
        "findings_history",
        items (to_items (List.map number (List.◌++◌ h.counts (length findings ∷ [])))),
      )
      ∷ ("repair_cycle", number (h.cycle + 1))
      ∷ []

  unfoldable pub recheck_node : String → TaskNode → History → List Value → TaskNode
  unfolding without set_all recheck_fields
  recheck_node job t h findings = record (fresh_node (recheck_id h) job) {
    required_capabilities = t.required_capabilities;
    dependencies = repair_id h ∷ [];
    assigned_actor = t.assigned_actor;
    max_attempts = t.max_attempts;
    metadata =
        set_all (recheck_fields t h findings)
          (without ("repair_commit" ∷ "repair_cycle" ∷ "findings_history" ∷ []) t.metadata);
  }

  -- Two tasks are added, and the failed check waits for the second.
  unfoldable pub send_back : TaskNode → History → List Value → Engine → Result Engine
  unfolding add_task supersede_task repair_node recheck_node
  send_back t h findings e = do
    g1 ← add_task (repair_node e.job.job_id t h findings) e.graph
    g2 ← add_task (recheck_node e.job.job_id t h findings) g1
    g3 ←
        supersede_task now t.task_id (some (recheck_id h))
          (some (text_of (some (env.say Why.repairing_again)))) g2
    ok (record e { graph = g3; job = record e.job { repair_count = e.job.repair_count + 1 } })

  unfoldable pub repair_failed_verdict : Ended → Engine → Result (Engine × Bool)
  unfolding is_repairable history_of diverges transition_job send_back values_of lookup
  repair_failed_verdict x e =
      let findings = values_of (lookup "findings" (meta_of x)) in
      let h = history_of x.task in
      let stop = transition_job env now blocked not_converging [] e in
      let used_up = transition_job env now blocked repairs_used [] e in
      let go = send_back x.task h findings e in
      if not (env.repairs_verdicts && is_repairable x)
      then ok (e, false)
      else if diverges h (length findings)
      then (stop >>= λ e'. ok (e', true))
      else if leb env.limits.max_repairs_per_job e.job.repair_count
      then (used_up >>= λ e'. ok (e', true))
      else (go >>= λ e'. ok (e', true))
