-- ===== src/Limits.antt =====
-- runtime/limits.py: `RuntimeLimits`, with its defaults and its dict form. The values of the dict are
-- integers that are not negative, which `int` leaves alone.
mod Samples
use hermes_lab.Prelude.{ℕ, String, ◌≡◌, refl, Option, none, some, [], ◌∷◌, eqb, if◌then◌else◌}
use hermes_lab.Dict.{Dict, lookup}

pub record RuntimeLimits : Type 0 where
  pub max_replans_per_job : ℕ
  pub max_repairs_per_job : ℕ
  pub max_task_attempts : ℕ
  pub max_runtime_depth : ℕ
  pub max_subagent_depth : ℕ
  pub max_tasks_per_job : ℕ
  pub concurrency_limit : ℕ
  pub max_initial_tasks : ℕ
  pub max_evidence_files : ℕ
  pub max_evidence_bytes : ℕ
  pub max_plan_repair_attempts : ℕ
  pub max_engine_steps : ℕ

abbrev pub default_limits : RuntimeLimits
default_limits = record {
  max_replans_per_job = 3;
  max_repairs_per_job = 10;
  max_task_attempts = 2;
  max_runtime_depth = 5;
  max_subagent_depth = 2;
  max_tasks_per_job = 50;
  concurrency_limit = 4;
  max_initial_tasks = 12;
  max_evidence_files = 20;
  max_evidence_bytes = 50000;
  max_plan_repair_attempts = 1;
  max_engine_steps = 500;
}

unfoldable pub to_dict : RuntimeLimits → Dict ℕ
to_dict l =
    ("max_replans_per_job", l.max_replans_per_job)
    ∷ ("max_repairs_per_job", l.max_repairs_per_job)
    ∷ ("max_task_attempts", l.max_task_attempts)
    ∷ ("max_runtime_depth", l.max_runtime_depth)
    ∷ ("max_subagent_depth", l.max_subagent_depth)
    ∷ ("max_tasks_per_job", l.max_tasks_per_job)
    ∷ ("concurrency_limit", l.concurrency_limit)
    ∷ ("max_initial_tasks", l.max_initial_tasks)
    ∷ ("max_evidence_files", l.max_evidence_files)
    ∷ ("max_evidence_bytes", l.max_evidence_bytes)
    ∷ ("max_plan_repair_attempts", l.max_plan_repair_attempts)
    ∷ ("max_engine_steps", l.max_engine_steps)
    ∷ []

abbrev get_or : Option ℕ → ℕ → ℕ
get_or none default = default
get_or (some v) default = v

-- Python's `a or b` on integers: an absent value and 0 both give way.
abbrev or_else : Option ℕ → ℕ → ℕ
or_else none other = other
or_else (some v) other = if eqb v 0 then other else v

-- `data.get(snake) or data.get(camel, default)`
unfoldable pub pick : Dict ℕ → String → String → ℕ → ℕ
pick d snake camel default = or_else (lookup snake d) (get_or (lookup camel d) default)

unfoldable pub from_dict : Dict ℕ → RuntimeLimits
unfolding pick
from_dict d = record {
  max_replans_per_job = pick d "max_replans_per_job" "maxReplansPerJob" 3;
  max_repairs_per_job = pick d "max_repairs_per_job" "maxRepairsPerJob" 10;
  max_task_attempts = pick d "max_task_attempts" "maxTaskAttempts" 2;
  max_runtime_depth = pick d "max_runtime_depth" "maxRuntimeDepth" 5;
  max_subagent_depth = pick d "max_subagent_depth" "maxSubagentDepth" 2;
  max_tasks_per_job = pick d "max_tasks_per_job" "maxTasksPerJob" 50;
  concurrency_limit = pick d "concurrency_limit" "concurrencyLimit" 4;
  max_initial_tasks = pick d "max_initial_tasks" "maxInitialTasks" 12;
  max_evidence_files = pick d "max_evidence_files" "maxEvidenceFiles" 20;
  max_evidence_bytes = pick d "max_evidence_bytes" "maxEvidenceBytes" 50000;
  max_plan_repair_attempts = pick d "max_plan_repair_attempts" "maxPlanRepairAttempts" 1;
  max_engine_steps = pick d "max_engine_steps" "maxEngineSteps" 500;
}

abbrev pub or_default : ℕ → ℕ → ℕ
or_default v default = if eqb v 0 then default else v

-- A limit of 0 is not kept by the dict form: it comes back as the default of its field. Every
-- other limit comes back as it was.
pub from_dict-to_dict :
    (l : RuntimeLimits)
    → from_dict (to_dict l) ≡ record {
      max_replans_per_job = or_default l.max_replans_per_job 3;
      max_repairs_per_job = or_default l.max_repairs_per_job 10;
      max_task_attempts = or_default l.max_task_attempts 2;
      max_runtime_depth = or_default l.max_runtime_depth 5;
      max_subagent_depth = or_default l.max_subagent_depth 2;
      max_tasks_per_job = or_default l.max_tasks_per_job 50;
      concurrency_limit = or_default l.concurrency_limit 4;
      max_initial_tasks = or_default l.max_initial_tasks 12;
      max_evidence_files = or_default l.max_evidence_files 20;
      max_evidence_bytes = or_default l.max_evidence_bytes 50000;
      max_plan_repair_attempts = or_default l.max_plan_repair_attempts 1;
      max_engine_steps = or_default l.max_engine_steps 500;
    }
unfolding from_dict to_dict lookup
from_dict-to_dict l = refl
