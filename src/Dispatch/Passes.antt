-- ===== src/Dispatch/Passes.antt =====
-- What the fallback loops of `dispatch_uncached`, `dispatch_stream_uncached` and `embeddings` share:
-- the candidates in order, the two checks before a call, and the arms of a failed call.
pub mod Laws
pub mod Attempts
pub mod Keeps
use rusty_provider.Prelude.{
  ℕ, ◌+◌, String, Option, none, some, List, [], ◌∷◌, unwrap_or, if◌then◌else◌, contains, string_eq,
}
use rusty_provider.Prelude.Results.{Result, ok, err}
use rusty_provider.Platform.{Platform}
use rusty_provider.Core.Errors.{
  ProviderError, is_retryable, RouterError, invalid_model, provider_not_configured, provider,
}
use rusty_provider.Chain.Settings.{Candidate, key_of, RouterSettings, ewma_record}
use rusty_provider.Dispatch.{Outside, RouterState, log_attempt, check_outbound_rate_limit}

-- What one pass of a loop does, with the state behind it: go on to the next candidate with an error
-- to remember, return a result, or return an error at once.
pub data Pass (P : Platform) (T A : Type 0) : Type 0 where
  skipped : T → RouterError P → Pass P T A
  served : T → A → Pass P T A
  refused : T → RouterError P → Pass P T A

-- A loop over the rest of the chain, with the number of candidates before it and the last error. The
-- result comes with the number of candidates tried.
unfoldable pub fall_back :
    {P : Platform} {T A : Type 0}
    → (Candidate → T → Pass P T A)
    → String
    → List Candidate
    → ℕ
    → Option (RouterError P)
    → T
    → T × Result (A × ℕ) (RouterError P)
fall_back pass target_model [] attempts last_err st =
    (st, err (unwrap_or last_err (invalid_model target_model)))
fall_back pass target_model (c ∷ cs) attempts last_err st = elim (pass c st) [
  | skipped st' e ↦ fall_back pass target_model cs (attempts + 1) (some e) st'
  | served st' a ↦ (st', ok (a, attempts + 1))
  | refused st' e ↦ (st', err e)
]

module _ {P : Platform} (O : Outside P) (s : RouterSettings P) {A : Type 0} where
  -- A pass over a candidate: the provider has to be configured and within its own rate.
  unfoldable pub guarded :
      (Candidate → RouterState P O.State → Pass P (RouterState P O.State) A)
      → Candidate
      → RouterState P O.State
      → Pass P (RouterState P O.State) A
  guarded call c st =
      let (st', limited) = check_outbound_rate_limit O s c.0 st in
      if contains s.providers c.0
      then (elim limited [
        | some e ↦ skipped (log_attempt O s c "rate_limited" st') (provider e)
        | none ↦ call c st'
      ])
      else skipped (log_attempt O s c "not_configured" st) (provider_not_configured c.0)

  -- The arms of a failed call, behind what they record.
  unfoldable pub failed :
      Candidate → ProviderError → RouterState P O.State → Pass P (RouterState P O.State) A
  failed c e st =
      if is_retryable e
      then skipped (log_attempt O s c "retryable_error" st) (provider e)
      else refused (log_attempt O s c "error" st) (provider e)

module _ {P : Platform} {S : Type 0} where
  unfoldable pub record_uptime : Candidate → P.F64 → RouterState P S → RouterState P S
  record_uptime c sample st = record st {
    stats = record st.stats { uptime = ewma_record P st.stats.uptime (key_of c) sample };
  }
