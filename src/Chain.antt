-- ===== src/Chain.antt =====
-- How `crates/router/src/lib.rs` turns a request's model into an ordered chain of candidates.
pub mod Settings
pub mod Resolve
pub mod Sort
pub mod Shuffle
pub mod Preferences
pub mod Filters
mod Tests
