-- ===== src/Replanning.antt =====
-- runtime/replanning.py: how the plans of a replanner change the task graph.
mod Defs
pub mod Bounds
mod Samples
pub use Defs.*
unfoldable pub use Defs.{
  capped, apply_add, apply_dependency, apply_supersede, apply_remove, apply_kind, apply_one,
  apply_from, apply_mutations,
}
