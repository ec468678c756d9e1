-- ===== src/Domain.antt =====
-- packages/domain/src: the records that every stage shares, their property lists, and the budget.
pub mod ContextBlock
pub mod Serialized
pub mod Unicode
pub mod TokenBudget
mod Tests
