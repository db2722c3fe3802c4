-- ===== src/Usage.antt =====
-- internal/usage: the event that agents send and the hub stores, its normalization and validation.
pub mod Event
pub mod Totals
pub mod Names
pub mod Identity
pub mod Check
pub mod Metadata
pub mod Validate
pub mod Privacy
pub mod Samples
mod Tests
