-- ===== src/Lib.antt =====
-- rusty_provider: a router in front of language-model providers. A client sends an OpenAI-shaped
-- chat request; the router resolves its model to a chain of (provider, model) candidates, filters and
-- ranks the chain by the request's preferences, and tries the candidates until one answers. Around
-- this it keeps rate limits, budgets, usage averages and caches. The paths below are those of the
-- repository, and the functions keep the names of the source.
--
-- The parts, and the files that model them:
-- - Platform: f64, f32 and JSON values as a parameter, with the documented laws of f64 that proofs
--   use. Samples has an instance over the natural numbers, and the other data of the examples.
-- - Core/Types, Core/Errors, Core/RateLimit: crates/core (types.rs, error.rs, rate_limit.rs) and
--   crates/router/src/error.rs. A lock around a map makes each operation on it one step, from the
--   state before to the state after; a clock is an argument.
-- - Core/Streaming and Core/Embeddings: the stream chunks and the embeddings of types.rs.
-- - Caches/Fifo: GenerationCache and ReasoningReplayCache of crates/router/src/lib.rs, and the
--   insertion that ResponseCache has too. Caches/Response and Caches/Semantic: the exact and the
--   semantic cache of crates/router/src/cache.rs, with the hash of a request as a given number.
-- - Budget/Calendar and Budget/Spend: crates/router/src/client_budget.rs and the methods of `Router`
--   on client budgets in crates/router/src/lib.rs. Budget/FreeTiers: crates/router/src/free_tiers.rs.
-- - Chain: resolve_chain (Chain/Resolve), apply_preferences (Chain/Preferences, with Chain/Sort for
--   the stable sort of Rust's library and Chain/Shuffle for shuffle_chain), and the two filters that
--   look at the request (Chain/Filters), all of crates/router/src/lib.rs. Chain/Settings has the
--   fields of `Router` that are fixed after startup, and the averages that rank candidates.
-- - Transforms and AutoRouting: the rewriting of a request for one candidate, and
--   crates/router/src/auto_routing.rs.
-- - Dispatch: retry_same_provider, record_usage and check_outbound_rate_limit. `Outside` has what the
--   router calls: the adapters' `chat`, `chat_stream` and `embeddings`, the clocks, the pause between
--   retries, the runtime's timeout and join, the request hash and the compressor of rtk.rs.
--   `RouterState` is passed through every call that changes it; metrics and database writes are logs
--   in it. Dispatch/Passes has what the three fallback loops share. Dispatch/Loop is the loop of
--   dispatch_uncached, Dispatch/Stream and Dispatch/Embed those of streams and embeddings (a stream is
--   the list of its items, each with the clocks when it is read), Dispatch/Judge and Dispatch/Fusion
--   the fusion strategy, and Dispatch/Cached dispatch_uncached as a whole and dispatch_traced around
--   it with the two caches.
-- - Requests: what happens to a request before its dispatch. Presets, Guardrails, WebSearch and
--   Moderation are presets.rs, guardrails.rs, web_search.rs and moderation.rs of crates/router/src,
--   with the methods of `Router` that call them. The regex crate (`Regexes`) and the calls of the
--   search and moderation services are parameters.
-- - Server: crates/server/src. Server/State has AppState and the error responses, Server/Auth the
--   authentication and identities of routes.rs, Server/Jwt the verification of jwt.rs with its key
--   cache (Server/Auth has its result as a parameter), and Server/Admin the client provisioning
--   (Admin/Scope, Admin/Owners, Admin/Keys and Admin/Budgets prove). Server/Chat is
--   chat_completions_dispatch, which runs the stages of Requests, checks the client's budget,
--   dispatches and charges the client. Server/Limits puts the authentication and the rate limit
--   before it, as chat_completions does, and before embeddings. The jsonwebtoken crate, the parsing
--   of bodies and the random API key are parameters.
-- - Webhook: the retry policy and the delivery loop of crates/router/src/webhook.rs. The POST and the
--   pause are parameters.
--
-- The program's integers: u64 and u32 sums are written with their wrap-around or saturation, and
-- usize as an unbounded number. ymd_from_days keeps the i32 cast of the year. All loops are structural
-- recursions, over a chain, a list of messages, or the number of retries left. Only `decimal`, which
-- prints a number, counts on fuel: one more than the number, which has fewer digits than that.
-- A map is an association list with one entry for a key. No modelled function depends on the order of
-- its entries but `key_of_client`: of several keys of one client it takes the first in the list, where
-- the source takes whichever its HashMap yields first. A handler of the admin API is one step: the
-- source takes its locks one after the other, and interleavings between them are not modelled.
--
-- Not modelled: the provider adapters (a parameter, `Outside`); the database code (a parameter,
-- `Persistence`); the compression heuristics of rtk.rs (a parameter); metrics; the reading of the
-- configuration; the server's reporting endpoints, its concurrency limit and the headers on a
-- dispatch's decisions; the MCP gateway and the command line. The calls of a fusion panel run in the
-- order that the `join_all` of `Outside` gives them. A cost is what the source's formula gives over
-- the abstract f64, so nothing is said of rounding.
pub mod Prelude
pub mod Platform
pub mod Core
pub mod Caches
pub mod Budget
pub mod Chain
pub mod Transforms
pub mod AutoRouting
pub mod Dispatch
pub mod Requests
pub mod Server
pub mod Webhook
pub mod Samples
