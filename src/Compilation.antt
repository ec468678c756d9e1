-- ===== src/Compilation.antt =====
-- `compile` of packages/compiler/src/context-compiler.ts, from the scored batch on.
pub mod Compile
pub mod Inputs
pub mod Bounds
pub mod Runs
pub mod Promises
pub mod Fixture
mod Tests
