-- ===== src/EventBus.antt =====
-- events/event_bus.py: the bus of the runtime's events.
mod Defs
pub mod History
mod Samples
pub use Defs.*
unfoldable pub use Defs.{
  keep_last, push, publish, after_event, from_id, recent, subscribe, unsubscribe, offer, deliver,
}
