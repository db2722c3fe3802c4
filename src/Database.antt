-- ===== src/Database.antt =====
-- internal/database: the hub's store of usage events and the machines that sent them.
pub mod Clock
pub mod Machines
pub mod Rows
pub mod Ingest
pub mod Heartbeat
mod Tests
