-- ===== src/Core/Errors.antt =====
-- `crates/core/src/error.rs` and `crates/router/src/error.rs`: the errors of provider adapters and
-- of the router, with their classification and HTTP status. The display texts are left out.
use rusty_provider.Prelude.{ℕ, String, Bool, true, false, Option, none, List, ◌||◌, leb, eqb}
use rusty_provider.Platform.{Platform}

pub data ProviderError : Type 0 where
  auth : String → ProviderError
  invalid_request : String → ProviderError
  rate_limited : (retry_after_secs : Option ℕ) → ProviderError
  upstream : (status : ℕ) (message : String) → ProviderError
  timeout : ProviderError
  network : String → ProviderError
  decode : String → ProviderError
  model_not_found : String → ProviderError
  unsupported_content : String → ProviderError
  unsupported_feature : String → ProviderError
  other : String → ProviderError

unfoldable pub is_retryable : ProviderError → Bool
is_retryable (rate_limited r) = true
is_retryable timeout = true
is_retryable (network m) = true
is_retryable (upstream status m) = leb 500 status || eqb status 429
is_retryable (auth m) = false
is_retryable (invalid_request m) = false
is_retryable (model_not_found m) = false
is_retryable (decode m) = false
is_retryable (unsupported_content m) = true
is_retryable (unsupported_feature m) = true
is_retryable (other m) = false

unfoldable pub is_transient : ProviderError → Bool
is_transient timeout = true
is_transient (network m) = true
is_transient (upstream status m) = leb 500 status
is_transient (rate_limited r) = false
is_transient (auth m) = false
is_transient (invalid_request m) = false
is_transient (model_not_found m) = false
is_transient (decode m) = false
is_transient (unsupported_content m) = false
is_transient (unsupported_feature m) = false
is_transient (other m) = false

unfoldable pub provider_status_code : ProviderError → ℕ
provider_status_code (auth m) = 401
provider_status_code (invalid_request m) = 400
provider_status_code (rate_limited r) = 429
provider_status_code (upstream status m) = status
provider_status_code timeout = 504
provider_status_code (network m) = 502
provider_status_code (decode m) = 502
provider_status_code (model_not_found m) = 404
provider_status_code (unsupported_content m) = 400
provider_status_code (unsupported_feature m) = 400
provider_status_code (other m) = 500

pub data RouterError (P : Platform) : Type 0 where
  invalid_model : String → RouterError P
  provider_not_configured : String → RouterError P
  no_eligible_provider : String → RouterError P
  guardrail_blocked : String → RouterError P
  unknown_preset : String → RouterError P
  moderation_flagged : List String → RouterError P
  request_budget_exceeded : String → P.F64 → RouterError P
  provider : ProviderError → RouterError P

module _ {P : Platform} where
  unfoldable pub status_code : RouterError P → ℕ
  unfolding provider_status_code
  status_code (invalid_model m) = 400
  status_code (provider_not_configured m) = 424
  status_code (no_eligible_provider m) = 400
  status_code (guardrail_blocked m) = 400
  status_code (unknown_preset m) = 400
  status_code (moderation_flagged cs) = 400
  status_code (request_budget_exceeded m c) = 402
  status_code (provider e) = provider_status_code e

  unfoldable pub retry_after_secs : RouterError P → Option ℕ
  retry_after_secs (provider (rate_limited r)) = r
  retry_after_secs e = none
