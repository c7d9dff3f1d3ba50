-- ===== src/TaskGraph.antt =====
-- runtime/task_graph.py: `TaskGraph`. A mutating method returns the new graph; one that may raise
-- returns a `Result`, and a raise leaves the graph as it was. `now` is `datetime.now()`.
mod Defs
mod Weight
pub mod Paths
pub mod Acyclic
pub mod Wellformed
pub mod Queries
pub mod Done
pub mod Ready
pub mod Retry
mod Samples
pub use Defs.*
unfoldable pub use Defs.{
  dependencies_of, adopt, add_task, has_path_loop, path_fuel, has_path, append_missing,
  add_dependency, get_task, list_tasks, has_dependents, remove_task, update_task, keeps_status,
  mark_ready, start, finish, give_up, replace, end_cancelled, mark_running, mark_success,
  mark_failure, mark_blocked, mark_cancelled, supersede_task,
}
