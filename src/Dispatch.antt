-- ===== src/Dispatch.antt =====
-- The dispatch of a request over its chain, in `crates/router/src/lib.rs`: retries at one provider,
-- the sequential fallback loop of `dispatch_uncached`, and the accounting of a response.
pub mod Passes
pub mod Loop
pub mod Retry
pub mod Stream
pub mod Embed
pub mod Judge
pub mod Fusion
pub mod Cached
mod Tests
use rusty_provider.Prelude.{
  ℕ, ◌+◌, ◌-◌, ◌%◌, ◌^◌, zero, suc, String, Option, none, some, List, [], ◌∷◌, ◌++◌, Map, Bool,
  true, false, unwrap_or, lookup, insert, string_eq, if◌then◌else◌, ltb, contains, ◌&&◌, not,
}
use rusty_provider.Prelude.Int.{ℤ}
use rusty_provider.Prelude.Results.{Result, ok, err, ◌>>=◌}
use rusty_provider.Platform.{Platform}
use rusty_provider.Core.Types.{ChatRequest, ChatResponse, Usage}
use rusty_provider.Core.Streaming.{ChatChunk}
use rusty_provider.Core.Embeddings.{EmbeddingsRequest, EmbeddingsResponse}
use rusty_provider.Caches.Response.{ResponseCache}
use rusty_provider.Caches.Semantic.{SemanticCache}
use rusty_provider.Core.Errors.{
  ProviderError, rate_limited, is_retryable, is_transient, RouterError, invalid_model,
  provider_not_configured, provider,
}
use rusty_provider.Core.RateLimit.{TokenBucket, RateLimitStatus, as_secs_f64, check}
use rusty_provider.Caches.Fifo.{
  Fifo, GenerationCache, GenerationRecord, generation_insert, ReasoningReplayCache,
}
use rusty_provider.Budget.FreeTiers.{record_tokens}
use rusty_provider.Chain.Settings.{
  Candidate, key_of, RouterSettings, RouterStats, ewma_record, PriceRates,
}
use rusty_provider.Chain.Resolve.{resolve_chain}
use rusty_provider.Chain.Preferences.{apply_preferences}
use rusty_provider.Chain.Filters.{filter_by_required_parameters, apply_request_budget}
use rusty_provider.Transforms.{
  maybe_apply_reasoning_replay, maybe_apply_middle_out, maybe_apply_rtk, cache_reasoning_for_replay,
}
use rusty_provider.AutoRouting.{resolve_target_model, effective_preferences, byok_key_for}

-- An item of a response stream, with the instant and the Unix time at which it is read.
pub record StreamItem (P : Platform) : Type 0 where
  pub at : ℕ
  pub now_unix : ℤ
  pub item : Result (ChatChunk P) ProviderError

-- What the router asks of the outside: the adapters' `Provider::chat`, the two clocks, the pause
-- between retries, the runtime's timeout and join, the request hash, and the tool-output compressor.
pub record Outside (P : Platform) : Type 1 where
  pub State : Type 0
  pub chat :
      State
      → (provider_name : String) → ChatRequest P
      → (model_name : String) → (api_key_override : Option String)
      → State × Result (ChatResponse P) ProviderError
  -- `Provider::chat_stream`: the items of the stream, each with the two clocks when it is read.
  pub chat_stream :
      State
      → (provider_name : String) → ChatRequest P
      → (model_name : String) → (api_key_override : Option String)
      → State × Result (List (StreamItem P)) ProviderError
  -- `Provider::embeddings`, without a key override.
  pub embeddings :
      State
      → (provider_name : String) → EmbeddingsRequest
      → (model_name : String) → State × Result (EmbeddingsResponse P) ProviderError
  -- `tokio::time::timeout`, with the time in nanoseconds, and `futures::future::join_all`.
  pub timeout :
      ℕ
      → (State → State × Result (ChatResponse P) ProviderError)
      → State
      → State × Option (Result (ChatResponse P) ProviderError)
  pub join_all :
      List (State → State × Option (Candidate × ChatResponse P))
      → State
      → State × List (Option (Candidate × ChatResponse P))
  -- The hash of a request's JSON text.
  pub key_for : ChatRequest P → ℕ
  -- Nanoseconds on the monotonic clock, and seconds of Unix time.
  pub instant : State → ℕ
  pub now_unix : State → ℤ
  pub sleep : State → State
  pub compress : String → String

module _ (P : Platform) where
  pub record UsageStats : Type 0 where
    pub requests : ℕ
    pub prompt_tokens : ℕ
    pub completion_tokens : ℕ
    pub cost_usd : P.F64

  -- A call of `metrics.record_attempt`.
  pub record Attempt : Type 0 where
    pub candidate : Candidate
    pub outcome : String

  -- The mutable part of `Router`, beside the outside's own state. `attempts`, `cache_lookups` and
  -- `persisted` log the calls of `metrics.record_attempt`, `metrics.record_cache_lookup` and
  -- `persistence.record`.
  pub record RouterState (S : Type 0) : Type 0 where
    pub outside : S
    pub stats : RouterStats P
    pub outbound : Map String (TokenBucket P)
    pub usage : Map String (UsageStats)
    pub generations : GenerationCache P
    pub reasoning_replay : ReasoningReplayCache
    pub cache : Option (ResponseCache P)
    pub semantic_cache : Option (SemanticCache P)
    pub attempts : List Attempt
    pub cache_lookups : List String
    pub persisted : List (String × Usage × Option P.F64)

-- `retry_same_provider`, with the number of retries that are left.
unfoldable pub retry_loop :
    {S A : Type 0}
    → (S → S)
    → (S → S × Result A ProviderError)
    → ℕ
    → S × Result A ProviderError
    → S × Result A ProviderError
retry_loop sleep attempt zero result = result
retry_loop sleep attempt (suc retries) (st, ok a) = (st, ok a)
retry_loop sleep attempt (suc retries) (st, err e) =
    let again = retry_loop sleep attempt retries (attempt (sleep st)) in
    if is_transient e then again else (st, err e)

abbrev pub same_provider_retries : ℕ
same_provider_retries = 1

unfoldable pub retry_same_provider :
    {S A : Type 0} → (S → S) → (S → S × Result A ProviderError) → S → S × Result A ProviderError
unfolding retry_loop
retry_same_provider sleep attempt st = retry_loop sleep attempt same_provider_retries (attempt st)

abbrev pub u64 : ℕ → ℕ
u64 n = n % 2 ^ 64

module _ {P : Platform} where
  unfoldable pub cost_of : PriceRates P → Usage → P.F64
  cost_of rates usage =
      let cached = P.of_nat (unwrap_or usage.cached_tokens 0) in
      let cache_write = P.of_nat (unwrap_or usage.cache_creation_tokens 0) in
      let fresh_prompt = P.sub (P.sub (P.of_nat usage.prompt_tokens) cached) cache_write in
      P.div
        (P.add
          (P.add (P.add (P.mul fresh_prompt rates.prompt_ppm) (P.mul cached rates.cache_read_ppm))
            (P.mul cache_write rates.cache_write_ppm))
          (P.mul (P.of_nat usage.completion_tokens) rates.completion_ppm))
        (P.of_nat 1000000)

  unfoldable pub usage_cost : RouterSettings P → Candidate → Usage → Option P.F64
  usage_cost s c usage = elim (lookup (key_of c) s.pricing) [
    | none ↦ none
    | some rates ↦ some (cost_of rates usage)
  ]

  abbrev pub no_usage : UsageStats P
  no_usage = record {
    requests = 0;
    prompt_tokens = 0;
    completion_tokens = 0;
    cost_usd = P.of_nat 0;
  }

  unfoldable pub add_usage : UsageStats P → Usage → Option P.F64 → UsageStats P
  add_usage stats usage cost = record {
    requests = u64 (stats.requests + 1);
    prompt_tokens = u64 (stats.prompt_tokens + usage.prompt_tokens);
    completion_tokens = u64 (stats.completion_tokens + usage.completion_tokens);
    cost_usd = elim cost [ none ↦ stats.cost_usd | some x ↦ P.add stats.cost_usd x ];
  }

module _ {P : Platform} (O : Outside P) (s : RouterSettings P) where
  unfoldable pub log_attempt : Candidate → String → RouterState P O.State → RouterState P O.State
  log_attempt c outcome st = record st {
    attempts = st.attempts ++ record { candidate = c; outcome = outcome } ∷ [];
  }

  -- The cost, and the usage map and the store with the response counted.
  unfoldable pub record_usage :
      Candidate → Usage → RouterState P O.State → RouterState P O.State × Option P.F64
  unfolding add_usage
  record_usage c usage st =
      let cost = usage_cost s c usage in
      let stats = unwrap_or (lookup (key_of c) st.usage) no_usage in
      (
        record st {
          usage = insert (key_of c) (add_usage stats usage cost) st.usage;
          persisted =
              if s.persistent then st.persisted ++ (key_of c, usage, cost) ∷ [] else st.persisted;
        },
        cost,
      )

  unfoldable pub check_outbound_rate_limit :
      String → RouterState P O.State → RouterState P O.State × Option ProviderError
  check_outbound_rate_limit name st = elim (lookup name s.provider_rpm) [
    | none ↦ (st, none)
    | some rpm ↦
        let (outbound, result) = check st.outbound name rpm (O.instant st.outside) in
        (
          record st { outbound = outbound },
          elim result [
            | ok status ↦ none
            | err status ↦ some (rate_limited (some (P.ceil_to_u64 status.retry_after_secs)))
          ],
        )
  ]

  unfoldable pub record_throughput :
      Candidate → Usage → P.F64 → RouterState P O.State → RouterState P O.State
  record_throughput c usage elapsed_secs st =
      if ltb 0 usage.completion_tokens && P.lt (P.of_nat 0) elapsed_secs
      then (let tps = P.div (P.of_nat usage.completion_tokens) elapsed_secs in
          record st {
            stats = record st.stats {
              throughput = ewma_record P st.stats.throughput (key_of c) tps;
            };
          })
      else st

  -- The part of the success arm that runs when the response carries a `usage`.
  unfoldable pub account_usage :
      Candidate
      → ChatResponse P
      → Usage
      → P.F64
      → RouterState P O.State
      → RouterState P O.State × ChatResponse P
  unfolding record_throughput
  account_usage c resp usage elapsed_secs st =
      let (st, cost) = record_usage c usage (record_throughput c usage elapsed_secs st) in
      let free_tier_usage =
        record_tokens s.free_tier_settings st.stats.free_tier_usage (key_of c)
          ((usage.prompt_tokens + usage.completion_tokens) % 2 ^ 32) (O.now_unix st.outside) in
      let generation : GenerationRecord P = record {
        id = resp.id;
        model = resp.model;
        created = resp.created;
        prompt_tokens = usage.prompt_tokens;
        completion_tokens = usage.completion_tokens;
        total_tokens = usage.total_tokens;
        cost_usd = cost;
      } in
      (
        record st {
          stats = record st.stats { free_tier_usage = free_tier_usage };
          generations = generation_insert generation st.generations;
        },
        record resp { cost_usd = cost },
      )
