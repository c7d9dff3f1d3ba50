-- ===== src/Recovery.antt =====
-- runtime/recovery.py: how the tasks and runs of an interrupted job are made ready to go on.
mod Defs
pub mod Resumed
mod Samples
pub use Defs.*
unfoldable pub use Defs.{
  add_refs, recover_task, sort_task, recover_tasks, recover, cancel_run, cancel_runs,
}
