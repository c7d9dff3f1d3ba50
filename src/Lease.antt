-- ===== src/Lease.antt =====
-- runtime/lease.py: exclusive ownership of a job by a runtime instance.
mod Defs
pub mod Exclusive
pub mod Heartbeat
mod Samples
pub use Defs.*
unfoldable pub use Defs.{
  is_expired, is_active, Leases, may_take, acquire_lease, renew_lease, release_lease, get_lease,
  heartbeat_loop, call_result, perform,
}
