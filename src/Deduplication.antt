-- ===== src/Deduplication.antt =====
-- packages/compiler/src/candidate-deduplicator.ts: candidates with the same content become one.
pub mod Group
pub mod Deduplicate
pub mod Reference
pub mod Choice
pub mod Filed
pub mod Resolved
pub mod Members
pub mod Known
pub mod Representative
pub mod Contents
pub mod Normalize
mod Tests
