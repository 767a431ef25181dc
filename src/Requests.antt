-- ===== src/Requests.antt =====
-- What happens to a chat request before its dispatch, in the order of `chat_completions`: the preset,
-- the web search, the guardrails and the moderation check.
pub mod Presets
pub mod WebSearch
pub mod Guardrails
pub mod Moderation
mod Tests
