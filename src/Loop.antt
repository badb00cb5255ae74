-- ===== src/Loop.antt =====
-- internal/loop: the tick, which reads and writes the store, and asks git, GitHub, the runner of agents
-- and the file system.
pub mod Machine
pub mod Calls
pub mod Intents
pub mod Push
pub mod Runs
pub mod Spawn
pub mod Launches
pub mod Refresh
pub mod Verbs
pub mod Outcomes
pub mod Repos
pub mod Starts
pub mod Tick
pub mod Examples
