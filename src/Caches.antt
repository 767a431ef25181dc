-- ===== src/Caches.antt =====
-- The bounded caches of `crates/router`: recent generations and reasoning traces (`src/lib.rs`),
-- and the response cache (`src/cache.rs`).
pub mod Keys
pub mod Fifo
pub mod Response
pub mod Semantic
mod Tests
