-- ===== src/EventStore/Samples.antt =====
-- The theorems on the event store applied to events whose payload is a number.
use hermes_lab.Prelude.{ℕ, ◌≡◌, refl, none, eqb, ok}
use hermes_lab.Dict.{lookup}
use hermes_lab.EventStore.Defs.{StoredEvent, empty, stored_as, place, append, latest_sequence}
use hermes_lab.EventStore.Sequences.{IsStore, empty-IsStore, append-IsStore}

abbrev event : StoredEvent ℕ
event = record {
  event_id = "e1";
  job_id = "job";
  sequence = 0;
  event_type = "job.created";
  payload = 7;
  task_id = none;
  run_id = none;
  actor_id = none;
  schema_version = 1;
  occurred_at = "2026-01-01T00:00:00Z";
  parent_event_id = none;
  causation_id = none;
  correlation_id = none;
}

appended : append eqb event empty ≡ ok (place 1 event empty, stored_as 1 event)
unfolding append empty place lookup latest_sequence
appended = refl

append-IsStore_example : IsStore (place 1 event empty)
append-IsStore_example =
    append-IsStore eqb event empty (place 1 event empty) (stored_as 1 event) appended empty-IsStore

one_event-IsStore : IsStore (place 1 event empty)
one_event-IsStore =
    append-IsStore eqb event empty (place 1 event empty) (stored_as 1 event) appended empty-IsStore
