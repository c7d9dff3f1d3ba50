-- ===== src/CircuitBreaker.antt =====
-- runtime/circuit_breaker.py: one breaker for each provider or actor, and their registry.
mod Defs
mod Registry
pub mod Cooldown
pub mod Probes
mod Samples
pub use Defs.*
unfoldable pub use Defs.{
  new, transition_to, current, allow_request, record_success, record_failure, tripped, reset,
}
pub use Registry.*
unfoldable pub use Registry.{
  config_of, get_breaker, update_entry, registry_allow, registry_success, registry_failure,
  registry_trip,
}
