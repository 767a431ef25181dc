-- ===== src/Dispatch/Tests.antt =====
-- Examples for the dispatch of a request: a fallback past a failing provider, and a refusal.
use rusty_provider.Prelude.{ℕ, ◌+◌, none, some, List, [], ◌∷◌, ◌++◌, length, ◌≡◌, refl, ◌↔◌, lookup}
use rusty_provider.Prelude.Results.{Result, ok, err}
use rusty_provider.Core.Types.{ChatResponse}
use rusty_provider.Core.Errors.{ProviderError, upstream, RouterError, is_transient, is_retryable}
use rusty_provider.Chain.Settings.{Candidate}
use rusty_provider.Samples.{
  nat_platform, answer, request, candidates, settings, outside, router_state,
}
use rusty_provider.Dispatch.{
  RouterState, same_provider_retries, retry_same_provider, retry_loop, account_usage, record_usage,
  usage_cost, cost_of, check_outbound_rate_limit,
}
use rusty_provider.Dispatch.Retry.{
  called, paused, recorded_sleep, recorded_attempt, IsRetried, retry_same_provider-IsRetried,
}
use rusty_provider.Dispatch.Passes.{served, fall_back, guarded, failed}
use rusty_provider.Dispatch.Passes.Laws.{Reaches}
use rusty_provider.Dispatch.Passes.Attempts.{tried, HasCount}
use rusty_provider.Dispatch.Loop.{
  try_chain, try_candidate, attempt_call, on_success, call_provider, on_error,
}
use rusty_provider.Dispatch.Loop.Attempts.{try_chain-tried}
use rusty_provider.Dispatch.Loop.Fallback.{try_chain-eq-ok_iff}

abbrev run :
    List Candidate
    → RouterState nat_platform ℕ × Result (ChatResponse nat_platform × ℕ) (RouterError nat_platform)
run chain = try_chain outside settings (request none) "fast" chain 0 none router_state

-- The second of two candidates answers after the first, at 60 for its 30 tokens.
abbrev paid : ChatResponse nat_platform
paid = record (answer "m") { cost_usd = some 60 }

run-paid : (run candidates).1 ≡ ok (paid, 2)
unfolding try_chain fall_back try_candidate guarded failed attempt_call call_provider on_error
    on_success account_usage record_usage usage_cost cost_of retry_same_provider retry_loop
    is_transient is_retryable check_outbound_rate_limit lookup
run-paid = refl

try_chain-eq-ok_iff_example : (run candidates ≡ ((run candidates).0, ok (paid, 2))) ↔ (
    (before : List Candidate) × (c : Candidate) × (2 ≡ length before + 1)
    × Reaches
        (try_candidate outside settings (request none))
        candidates
        (none, router_state)
        before
        c
        (served (run candidates).0 paid))
try_chain-eq-ok_iff_example =
    try_chain-eq-ok_iff outside settings (request none) "fast" candidates 2 router_state
      (run candidates).0 paid

-- A provider without a key is called, and the candidate behind it is not.
abbrev locked : List Candidate
locked = ("locked", "m") ∷ ("up", "m") ∷ []

try_chain-tried_example :
    (now after : List Candidate) × (candidates ≡ now ++ after)
    × (tried (run candidates).0 ≡ tried router_state ++ now)
    × HasCount (run candidates).1 (0 + length now)
try_chain-tried_example =
    try_chain-tried outside settings (request none) "fast" candidates 0 none router_state

-- A counter as the state, and an attempt that always meets an overloaded server.
abbrev overloaded : ℕ → ℕ × Result ℕ ProviderError
overloaded n = (n + 1, err (upstream 503 "overloaded"))

-- Two calls with a pause between them.
retry_same_provider-IsRetried_example :
    IsRetried same_provider_retries []
      (retry_same_provider (λ (n : ℕ). n) overloaded 0)
      (retry_same_provider (recorded_sleep (λ (n : ℕ). n)) (recorded_attempt overloaded) (0, []))
retry_same_provider-IsRetried_example = retry_same_provider-IsRetried (λ (n : ℕ). n) overloaded 0

overloaded-events :
    (retry_same_provider (recorded_sleep (λ (n : ℕ). n)) (recorded_attempt overloaded) (0, [])).0.1
    ≡ called (err (upstream 503 "overloaded"))
      ∷ paused
      ∷ called (err (upstream 503 "overloaded"))
      ∷ []
unfolding retry_same_provider retry_loop is_transient
overloaded-events = refl
