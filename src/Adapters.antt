-- ===== src/Adapters.antt =====
-- internal/adapters: how the usage that the tools report is turned into the tokens of events.
pub mod Arithmetic
pub mod Source
pub mod Clock
pub mod Signature
pub mod Cache
pub mod Codex
pub mod Hermes
pub mod Zcode
mod Tests
