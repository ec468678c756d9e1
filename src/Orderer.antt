-- ===== src/Orderer.antt =====
-- packages/compiler/src/context-orderer.ts: the order in which the selected blocks are rendered.
pub mod Compare
pub mod Order
pub mod Lawful
pub mod Guarantees
mod Tests
