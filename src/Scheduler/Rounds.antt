-- ===== src/Scheduler/Rounds.antt =====
-- runtime/scheduler.py: `schedule_ready_tasks`. The events of a round and the start of the execution
-- itself are effects outside the model; a launch is what the execution is created with.
use hermes_lab.Prelude.{◌>>=◌}
use hermes_lab.Prelude.{
  ℕ, String, Option, none, some, List, [], ◌∷◌, ◌++◌, Bool, true, false, not, ◌==◌, ◌&&◌, ◌||◌,
  if◌then◌else◌, truthy, is_some, elem, Result, ok,
}
use hermes_lab.Dict.{lookup, values}
use hermes_lab.Task.{Value, text, items, Items, nil, cons, TaskNode}
use hermes_lab.TaskGraph.{TaskGraph, mark_running, mark_blocked}
use hermes_lab.TaskGraph.Queries.{find_ready_tasks}
use hermes_lab.Projection.Payload.{truth}
use hermes_lab.Scheduler.Slots.{Slots, acquire_actor, add_running, can_dispatch_more}
use hermes_lab.Scheduler.Routing.{Services, is_actor_available}
use hermes_lab.Scheduler.Reasons.{Reason, changed, DispatchDecision, is_no_capable, Setting}
use hermes_lab.Scheduler.Matching.{alternative}
use hermes_lab.Scheduler.Choosing.{match_actor_for_task}

pub record Launch : Type 0 where
  pub task : TaskNode
  pub actor : String

pub record Round : Type 0 where
  pub slots : Slots
  pub services : Services
  pub graph : TaskGraph
  pub launched : List Launch

abbrev pub is_text : String → Option Value → Bool
is_text s (some (text t)) = t == s
is_text s _ = false

unfoldable pub is_verifier : TaskNode → Bool
unfolding lookup
is_verifier t = is_text "verifier" (lookup "role" t.metadata)

abbrev pub with_author : Option String → Bool → List String → List String
with_author none checks rest = rest
with_author (some actor) checks rest = if checks then rest else actor ∷ rest

-- `_author_actors`, in the order of the tasks
unfoldable pub author_actors : List TaskNode → List String
unfolding is_verifier
author_actors [] = []
author_actors (t ∷ ts) = with_author (truthy t.assigned_actor) (is_verifier t) (author_actors ts)

abbrev pub texts_of : Items → List String
texts_of nil = []
texts_of (cons (text s) vs) = s ∷ texts_of vs
texts_of (cons v vs) = texts_of vs

abbrev pub list_of : Option Value → List String
list_of (some (items vs)) = texts_of vs
list_of _ = []

unfoldable pub is_true : Option Value → Bool
unfolding truth
is_true none = false
is_true (some v) = truth v

-- An execution pinned to a backend keeps its actor.
unfoldable pub is_pinned : TaskNode → Bool
unfolding lookup is_true
is_pinned t =
    is_true (lookup "execution_backend" t.metadata)
    || is_true (lookup "backend" t.metadata)
    || is_true (lookup "options" t.metadata)

-- `actor in actors`, where no actor is in no list
abbrev pub among : Option String → List String → Bool
unfolding elem
among none actors = false
among (some actor) actors = elem actor actors

-- The actor to which a decision dispatches.
unfoldable pub target : DispatchDecision → Option String
target d = if d.dispatched then truthy d.actor else none

module _ (set : Setting) (now : ℕ) where
  -- A verifier prefers an actor that wrote nothing in the job.
  unfoldable pub prefer_independent :
      Slots → List TaskNode → TaskNode → Services × DispatchDecision → Services × DispatchDecision
  unfolding author_actors match_actor_for_task target
  prefer_independent slots tasks t (v, d) =
      let builders = author_actors tasks in
      let (v', other) = match_actor_for_task set now slots t [] builders v in
      if is_verifier t && among d.actor builders
      then (v', if is_some (target other) then other else d)
      else (v, d)

  unfoldable pub take_changed :
      Slots → DispatchDecision → Option String → Services → Services × DispatchDecision
  unfolding is_actor_available
  take_changed slots d none v = (v, d)
  take_changed slots d (some actor) v =
      let (v', free) = is_actor_available now actor slots v in
      let moved : DispatchDecision = record d {
        actor = some actor;
        dispatched = true;
        reason = changed;
        rejected_candidates = [];
      } in
      (v', if free then moved else d)

  -- Actors that made no changes on this work are passed over.
  unfoldable pub pass_over :
      Slots → TaskNode → Services × DispatchDecision → Services × DispatchDecision
  unfolding alternative take_changed is_pinned lookup
  pass_over slots t (v, d) =
      let avoid = list_of (lookup "avoid_actors" t.metadata) in
      let (v', other) = alternative set now slots t avoid v in
      if among d.actor avoid && not (is_pinned t)
      then take_changed slots d (truthy other) v'
      else (v, d)

  unfoldable pub decide : Round → TaskNode → Services × DispatchDecision
  unfolding prefer_independent pass_over match_actor_for_task
  decide r t = pass_over r.slots t (
      prefer_independent r.slots (values r.graph.tasks) t
        (match_actor_for_task set now r.slots t [] [] r.services))

  -- The task starts on the actor, is blocked where nobody can do it, or stays as it is.
  unfoldable pub place : TaskNode → Reason → Option String → Round → Result Round
  unfolding mark_running mark_blocked acquire_actor add_running
  place t why none r =
      if is_no_capable why
      then (do
        g ← mark_blocked t.task_id (some "no_capable_actor") r.graph
        ok (record r { graph = g }))
      else ok r
  place t why (some actor) r = do
    g ← mark_running now t.task_id (some actor) r.graph
    ok (record r {
      graph = g;
      slots =
          acquire_actor actor
            (record r.slots { running_tasks = add_running t.task_id r.slots.running_tasks });
      launched = r.launched ++ record { task = t; actor = actor } ∷ [];
    })

  unfoldable pub schedule_task : TaskNode → Round → Result Round
  unfolding decide target place elem
  schedule_task t r =
      let (v, d) = decide r t in
      if elem t.task_id r.slots.running_tasks
      then ok r
      else place t d.reason (target d) (record r { services = v })

  unfoldable pub schedule_loop : List TaskNode → Round → Result Round
  unfolding schedule_task can_dispatch_more
  schedule_loop [] r = ok r
  schedule_loop (t ∷ ts) r =
      if can_dispatch_more set.limit r.slots then schedule_task t r >>= schedule_loop ts else ok r

  unfoldable pub schedule_ready_tasks : Round → Result Round
  unfolding schedule_loop find_ready_tasks
  schedule_ready_tasks r = schedule_loop (find_ready_tasks r.graph) (record r { launched = [] })
