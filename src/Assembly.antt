-- ===== src/Assembly.antt =====
-- The result of packages/compiler/src/context-compiler.ts: the trace that is settled, the assembled
-- result and its self-check.
pub mod Numbers
pub mod Trace
pub mod Decisions
pub mod Result
pub mod Verify
pub mod Assemble
pub mod Sets
pub mod Arithmetic
pub mod Selection
pub mod Places
pub mod Groups
pub mod Decided
pub mod Traced
pub mod Dispositions
pub mod Evidence
pub mod Complete
pub mod Totals
pub mod Sums
pub mod Reconciled
pub mod Shown
pub mod Totalled
pub mod Checks
pub mod Promises
mod Tests
