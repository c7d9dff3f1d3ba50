-- ===== src/Engine/Batch.antt =====
-- runtime/engine.py: what `step` does with the executions that have ended.
use hermes_lab.Prelude.{◌>>=◌}
use hermes_lab.Prelude.{
  ℕ, ◌+◌, String, Option, none, some, List, [], ◌∷◌, ◌++◌, Bool, true, ◌==◌, ◌&&◌, ◌||◌,
  if◌then◌else◌, elem, Result, ok, err, attribute_error,
}
use hermes_lab.Dict.{Dict, lookup, insert, modify}
use hermes_lab.Task.{Value, flag, TaskNode}
use hermes_lab.TaskGraph.{TaskGraph}
use hermes_lab.Scheduler.Rounds.{is_true, is_text}
use hermes_lab.Engine.Defs.{Env, Engine}
use hermes_lab.Engine.Repairs.{
  Ended, meta_of, text_of, or_value, role_of, is_check_role, verdict_of, repair_failed_verdict,
}

-- The lists that the loop fills; of a text only that there is one is kept, and of the explicit
-- replans their number.
pub record Tally : Type 0 where
  pub follow_ups : List String
  pub replans : ℕ
  pub by_environment : ℕ
  pub unproven_again : ℕ

abbrev pub nothing : Tally
nothing = record { follow_ups = []; replans = 0; by_environment = 0; unproven_again = 0 }

-- The observations that ask for follow-up work.
abbrev pub asking : List (String × Bool) → List String
asking [] = []
asking ((id, asks) ∷ os) = let rest = asking os in if asks then id ∷ rest else rest

module _ (env : Env) (now : ℕ) where
  -- A check that ended without a verdict.
  unfoldable pub is_unproven : Ended → Bool
  unfolding role_of or_value verdict_of lookup
  is_unproven x =
      is_check_role (text_of (or_value (role_of x.task) (lookup "role" (meta_of x))))
      && verdict_of env now (meta_of x) == "unproven"

  abbrev pub set_meta : String → Value → TaskNode → TaskNode
  unfolding insert
  set_meta k v t = record t { metadata = insert k v t.metadata }

  -- Does the task wait for the repair with this id?
  abbrev pub awaits : String → TaskNode → Bool
  unfolding lookup elem
  awaits id t =
      is_text id (lookup "repair_task_id" t.metadata)
      || (env.starts "recheck_" t.task_id && elem id t.dependencies)

  abbrev pub tell_rechecks : String → Value → Dict TaskNode → Dict TaskNode
  unfolding awaits set_meta
  tell_rechecks id sha [] = []
  tell_rechecks id sha ((k, t) ∷ d) =
      (k, if awaits id t then set_meta "repair_commit" sha t else t) ∷ tell_rechecks id sha d

  abbrev pub is_repair : TaskNode → Bool
  unfolding lookup is_true
  is_repair t = is_true (lookup "repair_of" t.metadata) || env.starts "repair_" t.task_id

  -- The commit of a result is noted at its task and, for a repair, at the checks that wait for it.
  unfoldable pub note_commit : TaskNode → Option Value → TaskGraph → TaskGraph
  unfolding is_true modify set_meta tell_rechecks is_repair
  note_commit t none g = g
  note_commit t (some sha) g =
      let noted = modify t.task_id (set_meta "commit_sha" sha) g.tasks in
      if is_true (some sha)
      then record g { tasks = if is_repair t then tell_rechecks t.task_id sha noted else noted }
      else g

  -- The second run of a check without a verdict blocks the job; the first is noted.
  unfoldable pub take_unproven : Ended → Engine × Tally → Engine × Tally
  unfolding is_true lookup modify set_meta
  take_unproven x (e, t) =
      if is_true (lookup "had_unproven" x.task.metadata)
      then (e, record t { unproven_again = t.unproven_again + 1 })
      else (
        record e {
          graph = record e.graph {
            tasks = modify x.task.task_id (set_meta "had_unproven" (flag true)) e.graph.tasks;
          };
        },
        t,
      )

  -- The end of the loop's body: a repair, or a replan that the result asks for.
  -- `exec_res.metadata.get("trigger_replan")`, which raises where there is no dict.
  unfoldable pub ask_replan : Option (Dict Value) → Engine × Tally → Result (Engine × Tally)
  unfolding is_true lookup
  ask_replan none s = err attribute_error
  ask_replan (some d) (e, t) = ok (
    e,
    record t { replans = if is_true (lookup "trigger_replan" d) then t.replans + 1 else t.replans },
  )

  unfoldable pub take_verdict : Ended → Engine × Tally → Result (Engine × Tally)
  unfolding repair_failed_verdict ask_replan
  take_verdict x (e, t) = do
    (e', handled) ← repair_failed_verdict env now x e
    if handled then ok (e', t) else ask_replan x.metadata (e', t)

  abbrev pub with_commit : Option Value → TaskNode → TaskNode
  unfolding is_true set_meta
  with_commit none t = t
  with_commit (some sha) t = if is_true (some sha) then set_meta "commit_sha" sha t else t

  unfoldable pub take_ended : Ended → Engine × Tally → Result (Engine × Tally)
  unfolding note_commit is_unproven take_unproven take_verdict with_commit lookup
  take_ended x (e, t) =
      let noted : Engine = record e {
        graph = note_commit x.task (lookup "commit_sha" (meta_of x)) e.graph;
      } in
      let told : Tally = record t {
        follow_ups = if is_unproven x then t.follow_ups else t.follow_ups ++ asking x.observations;
      } in
      if env.setting.lower (text_of (lookup "blocked_by" (meta_of x))) == "environment"
      then ok (noted, record told { by_environment = told.by_environment + 1 })
      else if is_unproven x
      then ok (take_unproven x (noted, told))
      else take_verdict (record x { task = with_commit (lookup "commit_sha" (meta_of x)) x.task })
          (noted, told)

  -- What an execution has raised is raised again.
  unfoldable pub take_all : List (Result Ended) → Engine × Tally → Result (Engine × Tally)
  unfolding take_ended
  take_all [] s = ok s
  take_all (r ∷ rs) s = r >>= λ x. take_ended x s >>= take_all rs
