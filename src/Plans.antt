-- ===== src/Plans.antt =====
-- runtime/planning/validator.py: the validation of plans.
mod Defs
mod Cycles
mod Lists
mod Searches
mod Orders
mod Kept
pub mod Endings
pub mod Acyclic
mod Samples
