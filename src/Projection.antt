-- ===== src/Projection.antt =====
-- runtime/storage/projector.py: `RuntimeStateProjector`, with the events that runtime/events.py
-- writes for it.
pub mod Payload
mod Kinds
mod Jobs
mod Tasks
mod Runs
mod Defs
mod Bridge
mod Alike
mod JobSteps
mod JobChanges
mod TaskSteps
mod TaskAdded
mod TaskEnds
mod Live
mod Sound
mod TaskActs
mod Refines
mod Replayed
mod Numbered
pub mod Stored
pub mod Closed
mod Samples
