-- ===== src/JobState.antt =====
-- runtime/job_state.py: the lifecycle of a job, `JobRecord`.
mod Defs
pub mod Traces
pub mod Snapshot
mod Samples
pub use Defs.*
unfoldable pub use Defs.{
  legal, is_terminal_state, is_terminal, state_eq, enter, transition_to, snapshot, restore,
}
