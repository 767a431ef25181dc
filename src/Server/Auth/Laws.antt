-- ===== src/Server/Auth/Laws.antt =====
-- Which requests pass authentication.
use rusty_provider.Prelude.{
  String, Option, none, some, true, false, ◌==◌, ◌&&◌, is_none, is_some, is_empty, contains_key,
  string_eq, ◌≡◌, ◌⊎◌, ◌↔◌, inl, inr, arith, Bool-cases, Option-cases,
}
use rusty_provider.Platform.{Platform}
use rusty_provider.Budget.Spend.{Persistence}
use rusty_provider.Server.State.{JwtLibrary, AppState}
use rusty_provider.Server.Auth.{bearer_token, accepts, check_auth}

module _ {P : Platform} {B : Persistence P} (J : JwtLibrary) (state : AppState B) where
  -- No way of authentication is configured.
  abbrev pub IsOpen : Type 0
  IsOpen = (state.api_key ≡ none) × (is_empty state.client_keys ≡ true) × (state.jwt ≡ none)

  -- A token is the shared key, the key of a client, or, with JWTs configured, a valid one.
  abbrev pub IsAccepted : String → Type 0
  IsAccepted token =
      (state.api_key ≡ some token)
      ⊎ ((contains_key token state.client_keys ≡ true)
          ⊎ ((is_some state.jwt ≡ true) × (is_some (J.verify token) ≡ true)))

  accepts-IsAccepted : (token : String) → accepts J state token ≡ true → IsAccepted token
  unfolding accepts
  accepts-IsAccepted token h = elim (Option-cases state.api_key) [
    | inl unset ↦ elim (Bool-cases (contains_key token state.client_keys)) [
      | inl held ↦ inr (inl held)
      | inr unheld ↦ inr (inr (ground (arith, h, unset, unheld), ground (arith, h, unset, unheld)))
    ]
    | inr (key, set) ↦ elim (Bool-cases (key == token)) [
      | inl same ↦ inl (ground (arith, set, same, string_eq.beq_iff key token))
      | inr other ↦ elim (Bool-cases (contains_key token state.client_keys)) [
        | inl held ↦ inr (inl held)
        | inr unheld ↦
            inr (inr (ground (arith, h, set, other, unheld), ground (arith, h, set, other, unheld)))
      ]
    ]
  ]

  IsAccepted-accepts : (token : String) → IsAccepted token → accepts J state token ≡ true
  unfolding accepts
  IsAccepted-accepts token (inl shared) = ground (arith, shared, string_eq.beq_iff token token)
  IsAccepted-accepts token (inr (inl held)) = ground (arith, held)
  IsAccepted-accepts token (inr (inr (on, valid))) = ground (arith, on, valid)

  -- A request passes exactly when no way of authentication is configured, or it carries a bearer token
  -- that is the shared key, the key of a client, or, with JWTs configured, a valid JWT.
  pub check_auth-passes_iff :
      (header : Option String)
      → (check_auth J state header ≡ none)
        ↔ (IsOpen ⊎ ((token : String) × (bearer_token header ≡ some token) × IsAccepted token))
  unfolding check_auth
  check_auth-passes_iff header = (passes, passed)
    where
      carried :
          check_auth J state header ≡ none
          → (is_none state.api_key && is_empty state.client_keys && is_none state.jwt) ≡ false
          → (token : String) × (bearer_token header ≡ some token) × IsAccepted token
      carried h closed = elim (Option-cases (bearer_token header)) [
        | inl absent ↦ absurd (ground (arith, h, closed, absent))
        | inr (token, given) ↦
            (token, given, accepts-IsAccepted token (ground (arith, h, closed, given)))
      ]

      passes :
          check_auth J state header ≡ none
          → IsOpen ⊎ ((token : String) × (bearer_token header ≡ some token) × IsAccepted token)
      passes h =
          elim (Bool-cases
            (is_none state.api_key && is_empty state.client_keys && is_none state.jwt)) [
              | inl unset ↦
                  inl (ground (arith, unset), ground (arith, unset), ground (arith, unset))
              | inr closed ↦ inr (carried h closed)
            ]

      passed :
          IsOpen ⊎ ((token : String) × (bearer_token header ≡ some token) × IsAccepted token)
          → check_auth J state header ≡ none
      passed (inl (no_key, no_clients, no_jwt)) = ground (arith, no_key, no_clients, no_jwt)
      passed (inr (token, given, accepted)) =
          ground (arith, given, IsAccepted-accepts token accepted)
