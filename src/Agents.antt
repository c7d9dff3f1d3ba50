-- ===== src/Agents.antt =====
-- personas/agent_state_reducer.py: what the console shows of the agents.
mod Defs
pub mod Phases
pub mod Tracks
pub mod Running
mod Samples
pub use Defs.*
unfoldable pub use Defs.{normalize_agent_id, set_agent_status, phase_key, apply_phase, apply_event}
