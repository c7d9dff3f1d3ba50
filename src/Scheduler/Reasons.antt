-- ===== src/Scheduler/Reasons.antt =====
-- runtime/scheduler.py: `DispatchDecision` and its reasons. A reason stands for its text; a score is
-- left out, since it is only reported.
use Prim.Native.String.{◌++◌}
use hermes_lab.Prelude.{
  ℕ, String, Option, none, some, List, [], ◌∷◌, Bool, true, false, any, if◌then◌else◌, ◌||◌,
  is_some,
}
use hermes_lab.Dict.{Dict, lookup}
use hermes_lab.Task.{Value, number, object, TaskNode}
use hermes_lab.Capacity.{ProviderStatus, status_value, TaskBudget}
use hermes_lab.Capabilities.{CapabilityRegistry}
use hermes_lab.Projection.Payload.{of_fields}

-- What `get_actor_rejection_reason` answers.
pub data Rejection : Type 0 where
  at_capacity circuit_open unknown_rejection : Rejection
  provider_is : String → ProviderStatus → Rejection

unfoldable pub rejection_text : Rejection → String
rejection_text at_capacity = "Actor currently at max concurrency capacity"
rejection_text circuit_open = "Actor circuit breaker is OPEN"
rejection_text unknown_rejection = "Unknown rejection"
rejection_text (provider_is p status) = "Provider '" ++ p ++ "' is " ++ status_value status

-- Why a decision is as it is: deferred, or dispatched in one of five ways.
pub data Reason : Type 0 where
  no_capable_actor : Reason
  deferred : Rejection → Reason
  assigned : Reason
  rerouted : Rejection → Reason
  changed : Reason
  proactive : Reason
  ranked : Reason
  healthy : Reason

-- Why a candidate was not taken.
pub data Refusal : Type 0 where
  lacks : List String → Refusal
  rejected : Rejection → Refusal
  degraded : Refusal
  lower_score : Refusal

pub record DispatchDecision : Type 0 where
  pub actor : Option String
  pub dispatched : Bool
  pub reason : Reason
  pub matched : List String
  pub rejected_candidates : Dict Refusal

-- A decision that dispatches nothing.
unfoldable pub refuse : Reason → List String → Dict Refusal → DispatchDecision
refuse why matched others = record {
  actor = none;
  dispatched = false;
  reason = why;
  matched = matched;
  rejected_candidates = others;
}

-- `reason.startswith("Pre-dispatch rerouted")`
abbrev pub is_rerouted : Reason → Bool
is_rerouted (rerouted r) = true
is_rerouted changed = true
is_rerouted _ = false

-- `reason == "no_capable_actor"`
abbrev pub is_no_capable : Reason → Bool
is_no_capable no_capable_actor = true
is_no_capable _ = false

-- What the scheduler is set up with: the capability registry, its table of defaults, Python's strip,
-- lower and `in` on texts, the last with the part first, and the two tests of soft capacity.
pub record Setting : Type 0 where
  pub registry : CapabilityRegistry
  pub defaults : Dict (List String)
  pub strip : String → String
  pub lower : String → String
  pub within : String → String → Bool
  pub low_tokens : ℕ → ℕ → Bool
  pub low_requests : ℕ → ℕ → Bool
  pub limit : ℕ

-- The rejections after which another actor is looked for.
unfoldable pub asks_elsewhere : Setting → Rejection → Bool
unfolding any rejection_text
asks_elsewhere set r =
    any (λ k. set.within k (set.lower (rejection_text r)))
      ("circuit" ∷ "quota" ∷ "throttled" ∷ "unavailable" ∷ "auth" ∷ "outage" ∷ [])

abbrev count_of : Option Value → ℕ
count_of (some (number n)) = n
count_of _ = 0

abbrev estimate : Dict Value → TaskBudget
unfolding lookup
estimate d = record {
  expected_input_tokens = count_of (lookup "expected_input_tokens" d);
  expected_output_tokens = count_of (lookup "expected_output_tokens" d);
}

abbrev flat_budget : Dict Value → Option TaskBudget
unfolding lookup estimate
flat_budget d =
    if is_some (lookup "expected_input_tokens" d) || is_some (lookup "expected_output_tokens" d)
    then some (estimate d)
    else none

-- The estimate in the metadata of a task: under its own key, or flat.
abbrev budget_from : Option Value → Dict Value → Option TaskBudget
unfolding estimate flat_budget of_fields
budget_from (some (object fs)) d = some (estimate (of_fields fs))
budget_from _ d = flat_budget d

unfoldable pub budget_of : TaskNode → Option TaskBudget
unfolding budget_from lookup
budget_of t = budget_from (lookup "budget_estimate" t.metadata) t.metadata
