-- ===== src/Filter.antt =====
-- packages/compiler/src/candidate-filter.ts: which scored candidates are eligible.
pub mod Policy
pub mod Applicability
pub mod Decide
pub mod Decisions
pub mod Guarantees
pub mod Exclusions
mod Tests
