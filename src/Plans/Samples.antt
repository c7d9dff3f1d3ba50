-- ===== src/Plans/Samples.antt =====
-- The validation of plans at work, and its theorems applied to a plan.
use hermes_lab.Prelude.{◌≡◌, refl, String, none, some, List, [], ◌∷◌, true, ◌==◌, is_some}
use hermes_lab.Dict.{keys}
use hermes_lab.Plans.Defs.{
  PlannedTask, cycle, missing_dependency, Bounds, Texts, read_tasks, read_task, task_problems,
}
use hermes_lab.Plans.Cycles.{
  validate, check_graph, all_problems, find_cycles, has_cycle, scan, graph_of, graph_problems,
  edges_of, is_edge, colour, neighbours, paint, report, go_on, go_on_with, has_final_check,
}
use hermes_lab.Plans.Acyclic.{Ordered, task_map, validate-Ordered}
use hermes_lab.Plans.Endings.{validate-ends}

abbrev texts : Texts
texts = record { strip = λ s. s; lower = λ s. s; within = λ a b. a == b; starts = λ a b. a == b }

abbrev bounds : Bounds
bounds = record { max_initial_tasks = 12; available = none; agents = []; ref_exists = none }

abbrev planned : String → List String → PlannedTask
planned id deps = record {
  task_id = id;
  description = "work";
  dependencies = deps;
  required_capabilities = "edit" ∷ [];
  acceptance_criteria = [];
  verification = "run the tests" ∷ [];
  risk = "low";
  evidence_refs = [];
  evidence_status = "existing";
}

abbrev chain : List PlannedTask
chain = planned "a" [] ∷ planned "b" ("a" ∷ []) ∷ planned "c" ("a" ∷ "b" ∷ []) ∷ []

abbrev loop : List PlannedTask
loop = planned "a" ("c" ∷ "d" ∷ []) ∷ planned "b" ("a" ∷ []) ∷ planned "c" ("b" ∷ []) ∷ []

chain-valid : validate texts bounds chain ≡ some []
unfolding validate check_graph find_cycles has_cycle scan graph_of graph_problems edges_of is_edge
    all_problems colour neighbours paint report go_on go_on_with has_final_check read_tasks
    read_task task_problems
chain-valid = refl

loop-problems :
    validate texts bounds loop
    ≡ some (missing_dependency "a" "d" ∷ cycle ("a" ∷ "c" ∷ "b" ∷ "a" ∷ []) ∷ [])
unfolding validate check_graph find_cycles has_cycle scan graph_of graph_problems edges_of is_edge
    all_problems colour neighbours paint report go_on go_on_with has_final_check read_tasks
    read_task task_problems
loop-problems = refl

validate-ends_example : is_some (validate texts bounds loop) ≡ true
validate-ends_example = validate-ends texts bounds loop

validate-Ordered_example :
    Ordered
      (graph_of texts (task_map texts bounds chain) (task_map texts bounds chain))
      (keys (task_map texts bounds chain))
      []
validate-Ordered_example = validate-Ordered texts bounds chain chain-valid
