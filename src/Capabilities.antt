-- ===== src/Capabilities.antt =====
-- capabilities/capabilities.py: which actors can do a task, and in which order they are tried.
mod Defs
pub mod Eligible
pub mod Ranking
mod Samples
pub use Defs.*
unfoldable pub use Defs.{
  before, insert_ranked, sort_ranked, cleaned, register_actor, unregister_actor,
  get_actor_capabilities, actor_satisfies, is_eligible, ranked_of, gather, find_actors,
  select_actor, decide,
}
