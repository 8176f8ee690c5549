-- ===== src/Examples.antt =====
-- Tests of the models on concrete inputs, and the theorems at such inputs.
mod Storage
mod Transports
mod Intervals
mod Sessions
pub mod Plans
pub mod Runs
mod Commits
mod Digests
pub mod Policies
mod Bindings
