-- ===== src/Capacity.antt =====
-- runtime/capacity.py: the health of the providers, their usage, and the failure classes.
mod Status
mod Usage
mod Classify
pub mod Resets
pub mod Accounts
mod Samples
pub use Status.*
unfoldable pub use Status.{
  get_provider_for_actor, register_actor_provider, refreshed, get_provider_status,
  set_provider_status, record_provider_success, react, record_provider_failure,
  is_provider_available, is_actor_available,
}
pub use Usage.*
unfoldable pub use Usage.{
  post_init, get_usage, get_job_token_usage, add_to_job, record_snapshot, record_usage,
}
pub use Classify.*
unfoldable pub use Classify.{classify, check_soft_capacity}
