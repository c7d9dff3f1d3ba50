-- ===== src/EventStore.antt =====
-- runtime/storage/in_memory_store.py: the event store of a runtime without a database.
mod Defs
pub mod Sequences
mod Samples
pub use Defs.*
unfoldable pub use Defs.{
  empty, same_event, stored_as, place, append, take_limit, sort_events, list_events, events_after,
  latest_sequence, get_event, close,
}
