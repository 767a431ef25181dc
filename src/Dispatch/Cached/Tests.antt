-- ===== src/Dispatch/Cached/Tests.antt =====
-- Examples for the cached dispatch: a fusion route, and a request that is asked twice.
use rusty_provider.Prelude.{
  ℕ, lookup, none, some, [], ◌∷◌, ◌≡◌, ◌≢◌, ◌⊎◌, refl, ap, false, string_eq, arith,
}
use rusty_provider.Prelude.Results.{Result, ok}
use rusty_provider.Core.Types.{ChatResponse, is_streaming}
use rusty_provider.Core.Errors.{RouterError, is_transient, is_retryable}
use rusty_provider.Core.RateLimit.{as_secs_f64}
use rusty_provider.AutoRouting.{resolve_target_model, effective_preferences}
use rusty_provider.Caches.Response.{ResponseCache, response_get}
use rusty_provider.Chain.Settings.{RouterSettings, FusionConfig}
use rusty_provider.Samples.{
  nat_platform, answer, request, candidates, settings, outside, router_state,
}
use rusty_provider.Dispatch.{
  RouterState, retry_same_provider, retry_loop, account_usage, record_usage, usage_cost, cost_of,
  check_outbound_rate_limit, log_attempt,
}
use rusty_provider.Dispatch.Passes.{fall_back, guarded, failed}
use rusty_provider.Chain.Resolve.{
  dispatch_strategy, resolve_chain, parse_entries, chain_entries, split_once,
}
use rusty_provider.Chain.Preferences.{apply_preferences, deprioritize_unhealthy, is_unhealthy}
use rusty_provider.Chain.Filters.{
  filter_by_required_parameters, requires_parameters, apply_request_budget,
}
use rusty_provider.Chain.Sort.{sort_by, insert_by}
use rusty_provider.Dispatch.Loop.{
  plan_chain, try_chain, try_candidate, attempt_call, on_success, call_provider, on_error,
}
use rusty_provider.Dispatch.Fusion.{dispatch_fusion}
use rusty_provider.Dispatch.Stream.{DispatchTrace}
use rusty_provider.Dispatch.Cached.{
  dispatch_chain, dispatch_traced, cache_key_for, cache_get, cache_insert, answer_lookup,
  dispatch_miss, dispatch_uncached, fusion_taken, build_trace,
}
use rusty_provider.Dispatch.Cached.Laws.{
  strategy_of, IsPanelResult, dispatch_strategy-cases, dispatch_traced-again,
}

abbrev fused : RouterSettings nat_platform
fused = record settings {
  fusion_routes = ("fast", record { judge = "up/judge"; timeout = 1 }) ∷ [];
}

dispatch_strategy-cases_example :
    let after = dispatch_chain outside fused (request none) candidates router_state in
    ((strategy_of outside fused (request none) ≡ "fusion")
      × ((fusion : FusionConfig) × (lookup
              (resolve_target_model fused (request none)).0
              fused.fusion_routes
            ≡ some fusion)
          × (after.0
              ≡ (dispatch_fusion outside fused (request none) fusion candidates router_state).0)
          × IsPanelResult outside fused
              (request none)
              2
              (dispatch_fusion outside fused (request none) fusion candidates router_state).1
              after.1))
    ⊎ ((strategy_of outside fused (request none) ≢ "fusion")
        × (after
            ≡ try_chain outside fused
                (request none)
                (resolve_target_model fused (request none)).0
                candidates
                0
                none
                router_state))
dispatch_strategy-cases_example =
    dispatch_strategy-cases outside fused (request none) candidates router_state

-- An empty exact cache.
abbrev empty_cache : ResponseCache nat_platform
empty_cache = record {
  ttl = 60_000_000_000;
  max_entries = 2;
  queue = record { order = []; entries = [] };
}

abbrev caching : RouterState nat_platform ℕ
caching = record router_state { cache = some empty_cache }

abbrev first :
    RouterState nat_platform ℕ
    × Result (ChatResponse nat_platform × DispatchTrace) (RouterError nat_platform)
first = dispatch_traced outside settings (request none) 0 caching

abbrev paid : ChatResponse nat_platform
paid = record (answer "m") { cost_usd = some 60 }

-- The first candidate is tried twice and the second once; the sample clock adds a second for a call.
abbrev trace : DispatchTrace
trace = record {
  strategy = "fallback";
  provider = "";
  model = "m";
  latency_ms = 3000;
  fallback_attempts = 2;
}

first-paid : first.1 ≡ ok (paid, trace)
unfolding dispatch_traced lookup is_streaming cache_key_for cache_get answer_lookup dispatch_miss
    dispatch_uncached dispatch_chain fusion_taken dispatch_strategy build_trace response_get
    cache_insert plan_chain resolve_chain parse_entries chain_entries resolve_target_model
    split_once apply_preferences effective_preferences filter_by_required_parameters
    requires_parameters apply_request_budget deprioritize_unhealthy sort_by is_unhealthy try_chain
    fall_back try_candidate guarded failed attempt_call call_provider on_error on_success
    account_usage record_usage usage_cost cost_of retry_same_provider retry_loop is_transient
    is_retryable check_outbound_rate_limit insert_by log_attempt as_secs_f64
first-paid = refl

not_cached :
    (response_get (outside.instant 0) (outside.key_for (request none)) empty_cache).1 ≡ none
unfolding response_get lookup
not_cached = refl

whole_body : is_streaming (request none) ≡ false
unfolding is_streaming
whole_body = refl

-- The state in which the request is asked again.
abbrev later : RouterState nat_platform ℕ
later = record first.0 { semantic_cache = none }

dispatch_traced-again_example :
    (again : DispatchTrace) × ((dispatch_traced outside settings (request none) 1 later).1
      ≡ ok (paid, again))
    × (again.fallback_attempts ≡ 0)
    × ((dispatch_traced outside settings (request none) 1 later).0.outside ≡ later.outside)
    × ((dispatch_traced outside settings (request none) 1 later).0.attempts ≡ later.attempts)
dispatch_traced-again_example =
    dispatch_traced-again outside settings (request none) 0 1 caching first.0 later paid trace
      empty_cache whole_body refl refl not_cached (ap (λ r. (first.0, r)) first-paid) refl refl
      (omega arith)
