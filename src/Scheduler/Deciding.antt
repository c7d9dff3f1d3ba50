-- ===== src/Scheduler/Deciding.antt =====
-- runtime/scheduler.py: whom a round of `schedule_ready_tasks` decides for.
use hermes_lab.Prelude.{ℕ, ◌≡◌, String, Option, none, some, List, [], true, truthy, arith}
use hermes_lab.Dict.{lookup, values}
use hermes_lab.Task.{TaskNode}
use hermes_lab.Scheduler.Slots.{Slots}
use hermes_lab.Scheduler.Routing.{Services}
use hermes_lab.Scheduler.Reasons.{DispatchDecision, Setting}
use hermes_lab.Scheduler.Candidates.{capable_choice, alternative-capable}
use hermes_lab.Scheduler.Capable.{truthy-capable, match_actor_for_task-capable}
use hermes_lab.Scheduler.Matching.{alternative}
use hermes_lab.Scheduler.Choosing.{match_actor_for_task}
use hermes_lab.Scheduler.Rounds.{
  Round, author_actors, target, prefer_independent, take_changed, pass_over, decide, list_of,
}

module _ (set : Setting) (now : ℕ) where
  pub target-capable :
      (slots : Slots) (t : TaskNode) (d : DispatchDecision)
      → capable_choice set t d.actor ≡ true
      → capable_choice set t (target d) ≡ true
  unfolding target capable_choice
  target-capable slots t d h = ground (arith, truthy-capable set now slots t d.actor h)

  changed-capable :
      (slots : Slots) (t : TaskNode) (d : DispatchDecision) (o : Option String) (v : Services)
      → capable_choice set t d.actor ≡ true
      → capable_choice set t o ≡ true
      → capable_choice set t (take_changed set now slots d o v).1.actor ≡ true
  unfolding take_changed
  changed-capable slots t d none v h h' = h
  changed-capable slots t d (some a) v h h' = ground (arith, h, h')

  independent-capable :
      (slots : Slots) (tasks : List TaskNode) (t : TaskNode) (v : Services) (d : DispatchDecision)
      → capable_choice set t d.actor ≡ true
      → capable_choice set t (prefer_independent set now slots tasks t (v, d)).1.actor ≡ true
  unfolding prefer_independent
  independent-capable slots tasks t v d h =
      ground (arith, h, match_actor_for_task-capable set now slots t [] (author_actors tasks) v)

  passed-capable :
      (slots : Slots) (t : TaskNode) (v : Services) (d : DispatchDecision)
      → capable_choice set t d.actor ≡ true
      → capable_choice set t (pass_over set now slots t (v, d)).1.actor ≡ true
  unfolding pass_over
  passed-capable slots t v d h =
      let avoid = list_of (lookup "avoid_actors" t.metadata) in
      let other = alternative set now slots t avoid v in
      ground (
        arith,
        h,
        changed-capable slots t d (truthy other.1) other.0 h
            (truthy-capable set now slots t other.1 (alternative-capable set now slots t avoid v)),
      )

  pub decide-capable :
      (r : Round) (t : TaskNode) → capable_choice set t (decide set now r t).1.actor ≡ true
  unfolding decide
  decide-capable r t =
      let first = match_actor_for_task set now r.slots t [] [] r.services in
      let second = prefer_independent set now r.slots (values r.graph.tasks) t first in
      passed-capable r.slots t second.0 second.1 (
        independent-capable r.slots (values r.graph.tasks) t first.0 first.1
          (match_actor_for_task-capable set now r.slots t [] [] r.services))
