-- ===== src/Compiler.antt =====
-- packages/compiler/src/context-compiler.ts: the search of the render-aware correction.
pub mod Search
pub mod Reference
pub mod Prune
pub mod Gate
pub mod Subsets
pub mod Budgets
pub mod Contiguous
pub mod Grouping
pub mod Enumerate
pub mod Odometer
pub mod Valid
pub mod Over
pub mod Sizes
mod Tests
