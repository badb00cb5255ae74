-- ===== src/Store.antt =====
-- internal/store: the database, as its tables, and the operations of the store on them.
pub mod Db
pub mod Atomic
pub mod Queries
pub mod Runs
pub mod Intents
pub mod Launch
pub mod Events
pub mod Pushes
pub mod Tickets
pub mod Repos
pub mod Input
pub mod Examples
