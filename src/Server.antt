-- ===== src/Server.antt =====
-- `crates/server/src`: authentication, the admin API's client provisioning, and the chat endpoint.
pub mod State
pub mod Auth
pub mod Jwt
pub mod Admin
pub mod Chat
pub mod Limits
mod Tests
