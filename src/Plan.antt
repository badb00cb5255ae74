-- ===== src/Plan.antt =====
-- internal/plan: the pure core of the program. It derives the state of each ticket from what is
-- recorded and observed, and decides what the loop does next.
pub mod Ids
pub mod Vocab
pub mod Outcome
pub mod Workflow
pub mod Verdict
pub mod Ticket
pub mod State
pub mod Status
pub mod Launch
pub mod Draft
pub mod Push
pub mod Observation
pub mod Repos
pub mod Compose
pub mod Input
pub mod Spend
pub mod Peers
pub mod Derive
pub mod Transitions
pub mod Snapshot
pub mod Build
pub mod Gates
pub mod Preview
pub mod Stack
pub mod Waves
mod Examples
