-- ===== src/Scheduler/Outcomes.antt =====
-- What the end of a run leaves of the task.
use hermes_lab.Prelude.{
  ℕ, ◌+◌, ◌≡◌, refl, ap, ◌∙◌, inl, inr, String, Option, some, List, [], ◌∷◌, Bool, true, false, not,
  ◌==◌, ◌&&◌, ◌||◌, if◌then◌else◌, ltb, leb, truthy, is_some, Bool-cases, ok, arith, eq_refl,
}
use hermes_lab.Dict.{lookup, modify}
use hermes_lab.Dict.Laws.{lookup-modify}
use hermes_lab.Task.{TaskNode, is_succeeded, is_ready, is_failed}
use hermes_lab.TaskGraph.{
  TaskGraph, update_task_found, mark_running, mark_success, mark_failure, start, finish, give_up,
}
use hermes_lab.Capacity.{
  FailureClass, rate_limited, token_quota_exhausted, context_too_large, authentication, billing,
  provider_outage, model_unavailable, network, classify, record_snapshot, record_usage,
}
use hermes_lab.Scheduler.Settle.{
  TaskResult, Telemetry, reported, counted, counts_report, Outcome, success, wait, fail, reroute,
  apply_outcome, give_back, hand_over, outcome, settle, outcome_of, is_provider_failure, decided,
  failed_outcome, after_failure, record_telemetry,
}
use hermes_lab.Scheduler.Routing.{Services, find_alternative_actor}

-- The writes to the task, by outcome.
abbrev pub rewritten : ℕ → TaskResult → Outcome → TaskNode → TaskNode
rewritten now r success = finish now r.artifacts r.result_metadata
rewritten now r wait = give_back
rewritten now r fail = give_up now r.failure true
rewritten now r (reroute actor) = hand_over actor

-- The failures that pass by themselves.
abbrev passes_by_itself : FailureClass → Bool
passes_by_itself rate_limited = true
passes_by_itself token_quota_exhausted = true
passes_by_itself provider_outage = true
passes_by_itself network = true
passes_by_itself _ = false

-- The failures for which another actor may do: these, and those of the actor's account or model.
abbrev asks_for_another : FailureClass → Bool
asks_for_another authentication = true
asks_for_another billing = true
asks_for_another model_unavailable = true
asks_for_another context_too_large = true
asks_for_another class = passes_by_itself class

abbrev moves_on : Bool → FailureClass → Option String → Bool
moves_on succeeds class alternative =
    not succeeds && asks_for_another class && is_some (truthy alternative)

abbrev waits : Bool → FailureClass → Option String → Bool
waits succeeds class alternative =
    not succeeds && passes_by_itself class && not (is_some (truthy alternative))

-- The task after a run on an actor, by whether the run succeeded, the class of its failure, and the
-- other actor that was found. It succeeds exactly when the run does; it goes to the other actor where
-- that may help; its attempt is given back where it waits; and else it is FAILED once its attempts
-- are used up.
pub record After (succeeds : Bool) (class : FailureClass) (alternative : Option String)
    (actor : String) (before t : TaskNode) : Type 0 where
  pub success : is_succeeded t.status ≡ succeeds
  pub assigned :
      t.assigned_actor
      ≡ (if moves_on succeeds class alternative then truthy alternative else some actor)
  pub attempts :
      t.attempt ≡ (if waits succeeds class alternative then before.attempt else before.attempt + 1)
  pub goes_on : is_ready t.status ≡ (
      moves_on succeeds class alternative
      || waits succeeds class alternative
      || (not succeeds && ltb (before.attempt + 1) before.max_attempts))
  pub gives_up : is_failed t.status ≡ (
      not succeeds
      && not (moves_on succeeds class alternative)
      && not (waits succeeds class alternative)
      && leb before.max_attempts (before.attempt + 1))

-- The outcome by the same three.
abbrev outcome_by : Bool → FailureClass → Option String → Outcome
outcome_by succeeds class alternative =
    if succeeds
    then success
    else if is_provider_failure class
    then outcome_of class alternative
    else fail

apply_outcome_found :
    (now : ℕ) (id : String) (r : TaskResult) (o : Outcome) (g : TaskGraph) (t : TaskNode)
    → lookup id g.tasks ≡ some t
    → apply_outcome now id r o g ≡ ok (record g { tasks = modify id (rewritten now r o) g.tasks })
unfolding apply_outcome mark_success mark_failure
apply_outcome_found now id r success g t h =
    update_task_found id (finish now r.artifacts r.result_metadata) g t h
apply_outcome_found now id r wait g t h = update_task_found id give_back g t h
apply_outcome_found now id r fail g t h = update_task_found id (give_up now r.failure true) g t h
apply_outcome_found now id r (reroute actor) g t h = update_task_found id (hand_over actor) g t h

rewritten-After :
    (now later : ℕ) (actor : String) (r : TaskResult) (succeeds : Bool) (class : FailureClass)
    (alternative : Option String) (t : TaskNode)
    → (actor == "") ≡ false
    → After succeeds class alternative actor t
        (rewritten later r (outcome_by succeeds class alternative) (start now (some actor) t))
unfolding start finish give_up
rewritten-After now later actor r succeeds class alternative t named = ground (arith, named)

lookup-changed :
    (id : String) (f : TaskNode → TaskNode) (g : TaskGraph) (t : TaskNode)
    → lookup id g.tasks ≡ some t
    → lookup id (modify id f g.tasks) ≡ some (f t)
lookup-changed id f g t found = lookup-modify id id f g.tasks ∙ rw (eq_refl id, found) refl

module _ (low_tokens low_requests : ℕ → ℕ → Bool) (now later : ℕ) (ranked : List String) where
  abbrev pub class_of : TaskResult → FailureClass
  class_of r = (classify r.message r.status_code r.message_reset r.header_delay).0

  -- The other actor that is found after a failure.
  abbrev pub other_actor : String → String → TaskResult → Services → Option String
  other_actor provider actor r v =
      (find_alternative_actor low_tokens low_requests later (actor ∷ []) ranked (
        after_failure low_tokens low_requests later ranked provider actor r
          (classify r.message r.status_code r.message_reset r.header_delay) v)).1

  decided-by :
      (provider actor : String) (r : TaskResult) (v : Services)
      → (decided low_tokens low_requests later ranked provider actor r v).1
        ≡ outcome_by r.is_success (class_of r) (other_actor provider actor r v)
  unfolding decided failed_outcome
  decided-by provider actor r v = ground arith

  recorded :
      (job : Option String) (provider actor observed : String) (tel : Telemetry) (v : Services)
      → (v' : Services) × (record_telemetry job provider actor observed (ok tel) v ≡ ok v')
  unfolding record_telemetry
  recorded job provider actor observed (reported s) v =
      elim (Bool-cases (ltb 0 s.tokens_used || s.source == "provider_reported")) [
        | inl e ↦ (record v { usages = (record_snapshot s job v.usages).0 }, ground (arith, e))
        | inr e ↦ (v, ground (arith, e))
      ]
  recorded job provider actor observed (counted i o c) v =
      elim (Bool-cases (ltb 0 i || ltb 0 o || ltb 0 c)) [
        | inl e ↦ (
          record v {
            usages = (record_usage (counts_report job provider actor observed i o c) v.usages).0;
          },
          ground (arith, e),
        )
        | inr e ↦ (v, ground (arith, e))
      ]

  settled :
      (job : Option String) (provider actor id : String) (r : TaskResult) (v v' : Services)
      (g : TaskGraph)
      → record_telemetry job provider actor r.observed r.telemetry v ≡ ok v'
      → (settle low_tokens low_requests later ranked job provider actor id r v g).1
        ≡ apply_outcome later id r
            (decided low_tokens low_requests later ranked provider actor r v').1
            g
  unfolding settle outcome
  settled job provider actor id r v v' g eq = rw (eq, settle, outcome) refl

  -- A task of the graph that was dispatched to an actor, and whose run then ended with any result of
  -- which the usage can be read, is dealt with and nothing raises: it is SUCCEEDED exactly when the
  -- run is. After a failure that another actor may get over it is READY for the one that is found;
  -- where none is found and the failure passes by itself, it is READY with its attempt given back;
  -- and after any other failure it is READY while attempts are left and else FAILED.
  pub settle-After :
      (job : Option String) (provider actor id : String) (r : TaskResult) (tel : Telemetry)
      (v : Services) (g : TaskGraph) (before : TaskNode)
      → lookup id g.tasks ≡ some before
      → (actor == "") ≡ false
      → r.telemetry ≡ ok tel
      → (g1 g2 : TaskGraph) × (t : TaskNode) × (v' : Services) × (mark_running now id (some actor) g
          ≡ ok g1)
        × ((settle low_tokens low_requests later ranked job provider actor id r v g1).1 ≡ ok g2)
        × (lookup id g2.tasks ≡ some t)
        × (record_telemetry job provider actor r.observed r.telemetry v ≡ ok v')
        × After r.is_success (class_of r) (other_actor provider actor r v') actor before t
  unfolding mark_running
  settle-After job provider actor id r tel v g before found named read =
      let (v', eq) = recorded job provider actor r.observed tel v in
      let eq' : record_telemetry job provider actor r.observed r.telemetry v ≡ ok v' =
        ap (λ m. record_telemetry job provider actor r.observed m v) read ∙ eq in
      let o = outcome_by r.is_success (class_of r) (other_actor provider actor r v') in
      let g1 : TaskGraph = record g { tasks = modify id (start now (some actor)) g.tasks } in
      let found1 = lookup-changed id (start now (some actor)) g before found in
      let g2 : TaskGraph = record g1 { tasks = modify id (rewritten later r o) g1.tasks } in
      (
        g1,
        g2,
        rewritten later r o (start now (some actor) before),
        v',
        update_task_found id (start now (some actor)) g before found,
        settled job provider actor id r v v' g1 eq'
            ∙ ap (λ x. apply_outcome later id r x g1) (decided-by provider actor r v')
            ∙ apply_outcome_found later id r o g1 (start now (some actor) before) found1,
        lookup-changed id (rewritten later r o) g1 (start now (some actor) before) found1,
        eq',
        rewritten-After now later actor r r.is_success (class_of r)
            (other_actor provider actor r v') before named,
      )
