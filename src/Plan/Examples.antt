-- ===== src/Plan/Examples.antt =====
-- The theorems on concrete inputs, and the inputs.
pub mod Data
mod Verdicts
mod Workflows
mod Tickets
mod Pushes
mod Snapshots
mod Promises
mod Graphs
