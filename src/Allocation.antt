-- ===== src/Allocation.antt =====
-- packages/compiler/src/budget-allocator.ts: which candidates are selected under the budget.
pub mod Issue
pub mod Policy
pub mod State
pub mod Passes
pub mod Reconcile
pub mod Allocate
pub mod Ledger
pub mod Moves
pub mod Origins
pub mod Handles
pub mod Covered
pub mod Reserved
pub mod Run
pub mod Accounting
pub mod Categories
pub mod Feasible
pub mod Bounds
pub mod Guarantees
pub mod Consistent
pub mod Eviction
pub mod SelfCheck
pub mod Cheapest
pub mod Selection
pub mod Complete
pub mod Existence
pub mod Surplus
pub mod Exclusions
pub mod Determinism
pub mod Fixture
mod Tests
