-- ===== src/Store/Queries.antt =====
-- internal/store/ccdb: what each generated query reads and writes, from its SQL.
pub mod Runs
pub mod Launch
pub mod Events
