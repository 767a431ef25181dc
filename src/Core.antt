-- ===== src/Core.antt =====
-- The crate `crates/core`: shared types, errors and the rate limiter.
pub mod Types
pub mod Errors
pub mod RateLimit
pub mod Streaming
pub mod Embeddings
mod Tests
