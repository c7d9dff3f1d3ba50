-- ===== src/Engine.antt =====
-- runtime/engine.py: the loop that carries a job from its goal to its end.
mod Defs
mod Repairs
mod Batch
mod Steps
mod Loop
mod AtWork
mod Batches
mod Sound
mod Executing
mod Verdicts
mod Runs
mod Moves
mod Raises
mod Returning
mod Histories
mod Samples
