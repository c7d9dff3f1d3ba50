-- ===== src/Scheduler.antt =====
-- runtime/scheduler.py and runtime/routing.py: who runs a task, and what its end does.
pub mod Slots
mod Routing
mod Settle
pub mod Reasons
pub mod Matching
pub mod Choosing
pub mod Rounds
mod Candidates
pub mod Capable
pub mod Refusals
pub mod Load
mod Deciding
pub mod Launches
pub mod Ledger
pub mod Choice
pub mod Outcomes
pub mod Samples
pub use Slots.*
unfoldable pub use Slots.{
  set_actor_concurrency, get_actor_concurrency_limit, acquire_actor, release_actor,
  can_dispatch_more, add_running, discard_running, begin, finish_slot,
}
pub use Routing.*
unfoldable pub use Routing.{usable, find_alternative_actor, is_actor_available, load_allows}
pub use Settle.*
unfoldable pub use Settle.{
  record_telemetry, after_failure, failed_outcome, decided, outcome, apply_outcome, settle,
  settle_cancelled,
}
