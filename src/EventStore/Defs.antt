-- ===== src/EventStore/Defs.antt =====
-- runtime/storage/in_memory_store.py: `InMemoryRuntimeEventStore`. The locks make each method one
-- step, and copies are the values themselves. A sequence that the caller leaves to the store is 0.
-- The payload and its equality are parameters: a payload is any value that Python compares by `==`.
use hermes_lab.Prelude.{
  ℕ, zero, suc, ◌+◌, String, Option, none, some, List, [], ◌∷◌, ◌++◌, Bool, true, false, not, ◌&&◌,
  ◌==◌, eqb, ltb, leb, if◌then◌else◌, Result, ok, err, value_error, runtime_error, keep, take, max,
}
use hermes_lab.Dict.{Dict, lookup, insert}

abbrev pub same_option : Option String → Option String → Bool
same_option none none = true
same_option (some a) (some b) = a == b
same_option _ _ = false

abbrev pub number_or_zero : Option ℕ → ℕ
number_or_zero none = 0
number_or_zero (some n) = n

module _ (P : Type 0) where
  pub record StoredEvent : Type 0 where
    pub event_id : String
    pub job_id : String
    pub sequence : ℕ
    pub event_type : String
    pub payload : P
    pub task_id : Option String
    pub run_id : Option String
    pub actor_id : Option String
    pub schema_version : ℕ
    pub occurred_at : String
    pub parent_event_id : Option String
    pub causation_id : Option String
    pub correlation_id : Option String

  pub record EventStore : Type 0 where
    pub events_by_job : Dict (List StoredEvent)
    pub events_by_id : Dict StoredEvent
    pub job_sequences : Dict ℕ
    pub closed : Bool

module _ {P : Type 0} where
  unfoldable pub empty : EventStore P
  empty = record { events_by_job = []; events_by_id = []; job_sequences = []; closed = false }

  abbrev pub list_or_nil : Option (List (StoredEvent P)) → List (StoredEvent P)
  list_or_nil none = []
  list_or_nil (some es) = es

  -- self._events_by_job.get(job_id, [])
  abbrev pub job_events : String → EventStore P → List (StoredEvent P)
  job_events job s = list_or_nil (lookup job s.events_by_job)

  unfoldable pub latest_sequence : String → EventStore P → ℕ
  latest_sequence job s = number_or_zero (lookup job s.job_sequences)

  -- The stored copy of an event.
  abbrev pub stored_as : ℕ → StoredEvent P → StoredEvent P
  stored_as n e = record e { sequence = n }

  -- Step 3 of `append`: the event is stored under its job and its id.
  unfoldable pub place : ℕ → StoredEvent P → EventStore P → EventStore P
  unfolding latest_sequence
  place n e s = record s {
    events_by_job = insert e.job_id (job_events e.job_id s ++ stored_as n e ∷ []) s.events_by_job;
    events_by_id = insert e.event_id (stored_as n e) s.events_by_id;
    job_sequences = insert e.job_id (max (latest_sequence e.job_id s) n) s.job_sequences;
  }

  unfoldable pub get_event : String → EventStore P → Option (StoredEvent P)
  get_event id s = lookup id s.events_by_id

  unfoldable pub health_check : EventStore P → Bool
  health_check s = not s.closed

  unfoldable pub close : EventStore P → EventStore P
  close s = record s { closed = true }

  -- `events[:limit]` where a limit is given that is not 0
  unfoldable pub take_limit : Option ℕ → List (StoredEvent P) → List (StoredEvent P)
  take_limit none es = es
  take_limit (some zero) es = es
  take_limit (some (suc n)) es = take (suc n) es

  -- `sorted(events, key=lambda e: e.sequence)`, which is stable
  insert_sorted : StoredEvent P → List (StoredEvent P) → List (StoredEvent P)
  insert_sorted e [] = e ∷ []
  insert_sorted e (f ∷ fs) =
      if leb e.sequence f.sequence then e ∷ f ∷ fs else f ∷ insert_sorted e fs

  unfoldable pub sort_events : List (StoredEvent P) → List (StoredEvent P)
  unfolding insert_sorted
  sort_events [] = []
  sort_events (e ∷ es) = insert_sorted e (sort_events es)

  unfoldable pub list_events : String → Option ℕ → EventStore P → List (StoredEvent P)
  list_events job limit s = take_limit limit (sort_events (job_events job s))

  unfoldable pub events_after : String → ℕ → Option ℕ → EventStore P → List (StoredEvent P)
  events_after job n limit s =
      take_limit limit (sort_events (keep (λ e. ltb n e.sequence) (job_events job s)))

module _ {P : Type 0} (payload_eq : P → P → Bool) where
  -- The test that tells a repeated append from a conflicting one.
  unfoldable pub same_event : StoredEvent P → StoredEvent P → Bool
  same_event old e =
      old.job_id == e.job_id
      && old.event_type == e.event_type
      && payload_eq old.payload e.payload
      && same_option old.task_id e.task_id
      && same_option old.run_id e.run_id
      && same_option old.actor_id e.actor_id
      && eqb old.schema_version e.schema_version

  append_new : StoredEvent P → EventStore P → Result (EventStore P × StoredEvent P)
  append_new e s =
      let next = latest_sequence e.job_id s + 1 in
      if eqb e.sequence 0
      then ok (place next e s, stored_as next e)
      else if not (eqb e.sequence next)
      then err value_error
      else ok (place e.sequence e s, stored_as e.sequence e)

  append_seen :
      Option (StoredEvent P) → StoredEvent P → EventStore P → Result (EventStore P × StoredEvent P)
  unfolding append_new
  append_seen none e s = append_new e s
  append_seen (some old) e s = if same_event old e then ok (s, old) else err value_error

  unfoldable pub append : StoredEvent P → EventStore P → Result (EventStore P × StoredEvent P)
  unfolding append_seen
  append e s =
      if s.closed then err runtime_error else append_seen (lookup e.event_id s.events_by_id) e s
