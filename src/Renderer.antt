-- ===== src/Renderer.antt =====
-- packages/compiler/src/context-renderer.ts and tokenizer-port.ts: the context as one text, and its
-- measurement.
pub mod Records
pub mod Tokenizer
pub mod Render
pub mod Lines
pub mod Written
pub mod Reader
pub mod RoundTrip
pub mod Measures
mod Tests
