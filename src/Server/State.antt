-- ===== src/Server/State.antt =====
-- `AppState` of `crates/server/src/state.rs`, the errors of `crates/server/src/errors.rs`, and what the
-- handlers take from outside: the JWT library and the parsing of headers and bodies.
use rusty_provider.Prelude.{ℕ, String, Option, none, List, Map}
use rusty_provider.Platform.{Platform}
use rusty_provider.Core.Errors.{RouterError, status_code, retry_after_secs}
use rusty_provider.Budget.Spend.{Persistence, ClientConfig, BudgetState}

-- A JSON error response.
pub record HttpError : Type 0 where
  pub status : ℕ
  pub message : String
  pub retry_after_secs : Option ℕ

abbrev pub json_error : ℕ → String → HttpError
json_error status message = record { status = status; message = message; retry_after_secs = none }

-- `router_error_response`, with the error's text as given by its `Display`.
unfoldable pub router_error_response : {P : Platform} → String → RouterError P → HttpError
router_error_response text e = record {
  status = status_code e;
  message = text;
  retry_after_secs = retry_after_secs e;
}

-- The JWT library: `JwtVerifier::verify`, which is none on any failure, and `claim_as_str`.
pub record JwtLibrary : Type 1 where
  pub Claims : Type 0
  pub verify : (token : String) → Option Claims
  pub claim_as_str : Claims → (claim_name : String) → Option String

pub record JwtVerifier : Type 0 where
  pub client_claim : Option String

-- The part of `AppState` that authentication and provisioning use. `budgets` is the router's.
module _ {P : Platform} (B : Persistence P) where
  pub record AppState : Type 0 where
    pub api_key : Option String
    pub client_keys : Map String (String × ℕ)
    pub default_rate_limit_rpm : Option ℕ
    pub clients : List (ClientConfig P)
    pub admin_key : Option String
    pub jwt : Option JwtVerifier
    pub budgets : BudgetState B
