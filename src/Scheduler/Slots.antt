-- ===== src/Scheduler/Slots.antt =====
-- runtime/scheduler.py: the slots of `ReactiveScheduler`, its running tasks and busy actors.
use hermes_lab.Prelude.{
  ℕ, ◌+◌, ◌-◌, max, String, Option, none, some, List, ◌∷◌, Bool, not, ltb, eqb, if◌then◌else◌, ◌==◌,
  length, elem, keep,
}
use hermes_lab.Dict.{Dict, lookup, insert, remove}

pub record Slots : Type 0 where
  pub running_tasks : List String
  pub busy_actors : Dict ℕ
  pub actor_concurrency_limits : Dict ℕ
  pub default_actor_concurrency : ℕ

unfoldable pub set_actor_concurrency : String → ℕ → Slots → Slots
set_actor_concurrency actor limit s = record s {
  actor_concurrency_limits = insert actor (max 1 limit) s.actor_concurrency_limits;
}

abbrev pub get_load : ℕ → Option ℕ → ℕ
get_load default none = default
get_load default (some n) = n

unfoldable pub get_actor_concurrency_limit : String → Slots → ℕ
get_actor_concurrency_limit actor s =
    get_load s.default_actor_concurrency (lookup actor s.actor_concurrency_limits)

unfoldable pub acquire_actor : String → Slots → Slots
acquire_actor actor s = record s {
  busy_actors = insert actor (get_load 0 (lookup actor s.busy_actors) + 1) s.busy_actors;
}

-- A count that gets to 0 is removed.
abbrev pub lowered : String → Option ℕ → Dict ℕ → Dict ℕ
lowered actor none busy = busy
lowered actor (some n) busy =
    let lower = insert actor (n - 1) busy in if eqb (n - 1) 0 then remove actor lower else lower

unfoldable pub release_actor : String → Slots → Slots
release_actor actor s = record s {
  busy_actors = lowered actor (lookup actor s.busy_actors) s.busy_actors;
}

unfoldable pub can_dispatch_more : ℕ → Slots → Bool
can_dispatch_more limit s = ltb (length s.running_tasks) limit

-- `set.add` and `set.discard`
unfoldable pub add_running : String → List String → List String
add_running id ids = if elem id ids then ids else id ∷ ids

unfoldable pub discard_running : String → List String → List String
discard_running id ids = keep (λ x. not (x == id)) ids

-- The guards and the slots of one round of `schedule_ready_tasks`: at the concurrency limit nothing
-- starts, a task that runs is passed over, and a task with a decision takes its slots.
unfoldable pub begin : ℕ → String → String → Slots → Slots
unfolding acquire_actor add_running can_dispatch_more
begin limit id actor s =
    if not (can_dispatch_more limit s)
    then s
    else if elem id s.running_tasks
    then s
    else acquire_actor actor (record s { running_tasks = add_running id s.running_tasks })

-- The `finally` block of `_execute_task_wrapper`.
unfoldable pub finish_slot : String → String → Slots → Slots
unfolding release_actor discard_running
finish_slot id actor s =
    release_actor actor (record s { running_tasks = discard_running id s.running_tasks })
