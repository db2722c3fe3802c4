-- ===== src/Agent.antt =====
-- internal/agent: the program on a developer's machine that sends events to the hub.
pub mod Batches
pub mod Client
pub mod Backoff
pub mod State
pub mod Pass
mod Tests
