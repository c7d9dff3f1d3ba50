-- ===== src/Scheduler/Ledger.antt =====
-- The slots of the scheduler against the executions in flight.
use hermes_lab.Prelude.{
  sym, ℕ, suc, ◌+◌, ◌-◌, ◌≤◌, String, ◌≡◌, refl, Option, none, some, List, [], ◌∷◌, Bool, false,
  not, arith, if◌then◌else◌, ◌==◌, eq_iff, length, elem, keep, length-keep, String-cases,
  Option-cases, inl, inr,
}
use hermes_lab.Dict.{Dict, lookup, insert, remove, has, keys}
use hermes_lab.Dict.Laws.{lookup-insert, lookup-remove, Unique, Unique-remove}
use hermes_lab.Scheduler.Slots.{
  Slots, get_load, lowered, acquire_actor, release_actor, can_dispatch_more, add_running,
  discard_running, begin, finish_slot,
}

-- An execution is launched for a task and an actor, or the execution of a task ends.
pub data Move : Type 0 where
  launch : String → String → Move
  end_of : String → Move

pub record Running : Type 0 where
  pub slots : Slots
  pub flight : Dict String

-- The guards under which `begin` takes the slots, and an execution is created.
abbrev pub starts : ℕ → String → Slots → Bool
starts limit id s = if can_dispatch_more limit s then not (elem id s.running_tasks) else false

abbrev ended : String → Option String → Running → Running
ended id none r = r
ended id (some actor) r = record {
  slots = finish_slot id actor r.slots;
  flight = remove id r.flight;
}

unfoldable pub step : ℕ → Move → Running → Running
step limit (launch id actor) r = record {
  slots = begin limit id actor r.slots;
  flight = if starts limit id r.slots then (id, actor) ∷ r.flight else r.flight;
}
step limit (end_of id) r = ended id (lookup id r.flight) r

unfoldable pub steps : ℕ → List Move → Running → Running
steps limit [] r = r
steps limit (m ∷ ms) r = steps limit ms (step limit m r)

-- The executions in flight on an actor.
abbrev pub count_on : String → Dict String → ℕ
count_on actor [] = 0
count_on actor ((id, a) ∷ flight) =
    let rest = count_on actor flight in if a == actor then suc rest else rest

pub record IsLedger (limit : ℕ) (r : Running) : Type 0 where
  pub tasks_in_flight : r.slots.running_tasks ≡ keys r.flight
  pub one_each : Unique r.flight
  pub loads : (a : String) → get_load 0 (lookup a r.slots.busy_actors) ≡ count_on a r.flight
  pub within : length r.slots.running_tasks ≤ limit

has-elem : (id : String) (d : Dict String) → elem id (keys d) ≡ has id d
unfolding elem lookup
has-elem id [] = refl
has-elem id ((j, a) ∷ d) = ground (arith, has-elem id d)

discard_running-keys :
    (id : String) (d : Dict String) → discard_running id (keys d) ≡ keys (remove id d)
unfolding discard_running keep remove
discard_running-keys id [] = refl
discard_running-keys id ((j, a) ∷ d) = ground (arith, discard_running-keys id d)

count-remove_missing :
    (id actor : String) (d : Dict String)
    → has id d ≡ false
    → count_on actor (remove id d) ≡ count_on actor d
unfolding lookup remove
count-remove_missing id actor [] h = refl
count-remove_missing id actor ((j, a) ∷ d) h = ground (arith, count-remove_missing id actor d, h)

count-remove :
    (id actor other : String) (d : Dict String)
    → Unique d
    → lookup id d ≡ some actor
    → count_on other d ≡ (
        if actor == other then suc (count_on other (remove id d)) else count_on other (remove id d))
unfolding lookup remove
count-remove id actor other [] u h = ground (arith, h)
count-remove id actor other ((j, a) ∷ d) (fresh, u) h = elim (String-cases j id) [
  | inl (e, p) ↦ ground (arith, e, count-remove_missing id other d (rw (sym p) fresh), h)
  | inr (e, p) ↦ ground (arith, e, count-remove id actor other d u, h)
]

load-lowered :
    (actor other : String) (busy : Dict ℕ)
    → get_load 0 (lookup other (lowered actor (lookup actor busy) busy)) ≡ (
        if actor == other
        then get_load 0 (lookup other busy) - 1
        else get_load 0 (lookup other busy))
load-lowered actor other busy = elim (Option-cases (lookup actor busy)) [
  | inl e ↦ ground (arith, e, eq_iff actor other)
  | inr (n, e) ↦ ground (
    arith,
    e,
    eq_iff actor other,
    lookup-insert actor other (n - 1) busy,
    lookup-remove actor other (insert actor (n - 1) busy),
  )
]

pub launch-IsLedger :
    (limit : ℕ) (id actor : String) (r : Running)
    → IsLedger limit r
    → IsLedger limit (step limit (launch id actor) r)
unfolding step begin acquire_actor add_running can_dispatch_more
launch-IsLedger limit id actor r h = record {
  tasks_in_flight = ground (arith, h.tasks_in_flight);
  one_each = ground (arith, h.one_each, h.tasks_in_flight, has-elem id r.flight);
  loads = λ a. ground (
    arith,
    h.loads a,
    eq_iff actor a,
    lookup-insert actor a (get_load 0 (lookup actor r.slots.busy_actors) + 1) r.slots.busy_actors,
  );
  within = ground (arith, h.within);
}

end-IsLedger :
    (limit : ℕ) (id : String) (r : Running)
    → IsLedger limit r
    → IsLedger limit (step limit (end_of id) r)
unfolding step finish_slot release_actor discard_running
end-IsLedger limit id r h = elim (Option-cases (lookup id r.flight)) [
  | inl e ↦ rw e h
  | inr (actor, e) ↦ rw e (record {
    tasks_in_flight = rw h.tasks_in_flight (discard_running-keys id r.flight);
    one_each = Unique-remove id r.flight h.one_each;
    loads = λ a. ground (
      arith,
      h.loads a,
      count-remove id actor a r.flight h.one_each e,
      load-lowered actor a r.slots.busy_actors,
    );
    within =
        omega (arith, h.within, length-keep (λ (x : String). not (x == id)) r.slots.running_tasks);
  })
]

-- From slots in which this holds, whatever tasks are launched and whatever executions end, in
-- whatever order: the running tasks are those in flight, each once; the load of every actor is the
-- number of executions in flight on it; and the concurrency limit is never passed.
pub steps-IsLedger :
    (limit : ℕ) (ms : List Move) (r : Running)
    → IsLedger limit r
    → IsLedger limit (steps limit ms r)
unfolding steps
steps-IsLedger limit [] r h = h
steps-IsLedger limit (launch id actor ∷ ms) r h =
    steps-IsLedger limit ms (step limit (launch id actor) r) (launch-IsLedger limit id actor r h)
steps-IsLedger limit (end_of id ∷ ms) r h =
    steps-IsLedger limit ms (step limit (end_of id) r) (end-IsLedger limit id r h)
