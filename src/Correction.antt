-- ===== src/Correction.antt =====
-- The render-aware correction of packages/compiler/src/context-compiler.ts.
pub mod Measure
pub mod Deficits
pub mod Fallback
pub mod Settle
pub mod Keys
pub mod Visits
pub mod Content
pub mod Searches
pub mod Spans
pub mod Distinct
pub mod Bounded
pub mod Bases
pub mod Eligible
pub mod Parts
pub mod Explained
pub mod Ends
pub mod Held
pub mod Removals
pub mod Evictions
pub mod Initial
pub mod Guarantees
pub mod Promises
pub mod Fixture
mod Tests
