-- ===== src/Server/Auth.antt =====
-- Who a request is from: the authentication of `crates/server/src/routes.rs`. A request's
-- `Authorization` header is given as its text, if it is readable text.
pub mod Laws
use Prim.Native.Char.{code}
use Prim.Native.String as Str
use rusty_provider.Prelude.{
  ℕ, String, Option, none, some, List, [], ◌∷◌, Bool, true, false, if◌then◌else◌, ◌==◌, ◌&&◌, ◌||◌,
  is_none, is_some, is_empty, lookup, contains_key, any, string_eq, eqb,
}
use rusty_provider.Prelude.Results.{Result, ok, err}
use rusty_provider.Platform.{Platform}
use rusty_provider.Budget.Spend.{Persistence, ClientConfig, ClientRole, member, admin}
use rusty_provider.Server.State.{HttpError, json_error, JwtLibrary, JwtVerifier, AppState}

-- `str::strip_prefix`.
unfoldable pub strip_prefix : String → String → Option String
strip_prefix Str.[] s = some s
strip_prefix (Str.◌∷◌ c p) Str.[] = none
strip_prefix (Str.◌∷◌ c p) (Str.◌∷◌ d s) =
    let rest = strip_prefix p s in if eqb (code c) (code d) then rest else none

unfoldable pub bearer_token : Option String → Option String
unfolding strip_prefix
bearer_token none = none
bearer_token (some authorization) = strip_prefix "Bearer " authorization

-- `o.as_deref() == Some(token)`.
abbrev pub is_key : Option String → String → Bool
is_key none token = false
is_key (some key) token = key == token

pub data AdminIdentity : Type 0 where
  global : AdminIdentity
  scoped : (organization : Option String) → AdminIdentity

abbrev pub is_admin : {P : Platform} → ClientConfig P → Bool
is_admin c = elim c.role [ member ↦ false | admin ↦ true ]

-- `&client.organization == organization`.
abbrev pub same_organization : Option String → Option String → Bool
same_organization none none = true
same_organization none (some b) = false
same_organization (some a) none = false
same_organization (some a) (some b) = a == b

unfoldable pub in_admin_scope : {P : Platform} → AdminIdentity → ClientConfig P → Bool
in_admin_scope global client = true
in_admin_scope (scoped organization) client = same_organization client.organization organization

-- `iter().find(..)`.
abbrev pub find_first : {A : Type 0} → (A → Bool) → List A → Option A
find_first p [] = none
find_first p (x ∷ xs) = if p x then some x else find_first p xs

module _ {P : Platform} {B : Persistence P} where
  -- Whether a token is the shared key, a client's key, or a valid JWT.
  unfoldable pub accepts : JwtLibrary → AppState B → String → Bool
  accepts J state token =
      is_key state.api_key token
      || contains_key token state.client_keys
      || (is_some state.jwt && is_some (J.verify token))

  -- None lets the request through.
  unfoldable pub check_auth : JwtLibrary → AppState B → Option String → Option HttpError
  unfolding bearer_token accepts
  check_auth J state header =
      if is_none state.api_key && is_empty state.client_keys && is_none state.jwt
      then none
      else elim (bearer_token header) [
        | none ↦ some (json_error 401 "missing or invalid API key")
        | some token ↦
            if accepts J state token
            then none
            else some (json_error 401 "missing or invalid API key")
      ]

  unfoldable pub admin_api_enabled : AppState B → Bool
  admin_api_enabled state = is_some state.admin_key || any is_admin state.clients

  -- The scope of a client's key: that of the first admin client of the key's name.
  unfoldable pub scope_of_key : AppState B → String → Option AdminIdentity
  scope_of_key state token = elim (lookup token state.client_keys) [
    | none ↦ none
    | some (name, rpm) ↦
        elim (find_first (λ (c : ClientConfig P). c.name == name && is_admin c) state.clients) [
          | none ↦ none
          | some client ↦ some (scoped client.organization)
        ]
  ]

  unfoldable pub check_admin_auth : AppState B → Option String → Result AdminIdentity HttpError
  unfolding admin_api_enabled scope_of_key bearer_token
  check_admin_auth state header =
      if admin_api_enabled state
      then (elim (bearer_token header) [
        | none ↦ err (json_error 401 "missing or invalid admin API key")
        | some token ↦
            if is_key state.admin_key token then ok global else elim (scope_of_key state token) [
              | none ↦ err (json_error 401 "missing or invalid admin API key")
              | some identity ↦ ok identity
            ]
      ])
      else err (json_error 404 "not found")

  -- The client that a JWT's claim names.
  unfoldable pub claimed_client : (J : JwtLibrary) → AppState B → String → Option String
  claimed_client J state token = elim state.jwt [
    | none ↦ none
    | some jwt ↦ elim jwt.client_claim [
      | none ↦ none
      | some claim_name ↦ elim (J.verify token) [
        | none ↦ none
        | some claims ↦ elim (J.claim_as_str claims claim_name) [
          | none ↦ none
          | some claim_value ↦
              elim (find_first (λ (c : ClientConfig P). c.name == claim_value) state.clients) [
                | none ↦ none
                | some client ↦ some client.name
              ]
        ]
      ]
    ]
  ]

  unfoldable pub resolve_client_identity :
      (J : JwtLibrary) → AppState B → Option String → Option String
  unfolding bearer_token claimed_client
  resolve_client_identity J state header = elim (bearer_token header) [
    | none ↦ none
    | some token ↦ elim (lookup token state.client_keys) [
      | some (name, rpm) ↦ some name
      | none ↦ claimed_client J state token
    ]
  ]

  -- The rate limit's bucket and rate; `ip` is the peer address as text.
  unfoldable pub resolve_rate_limit :
      AppState B → (client_name : Option String) → (ip : String) → Option (String × ℕ)
  resolve_rate_limit state client_name ip =
      let by_ip : Option (String × ℕ) = elim state.default_rate_limit_rpm [
        | none ↦ none
        | some rpm ↦ some (Str.◌++◌ "ip:" ip, rpm)
      ] in
      elim client_name [
        | none ↦ by_ip
        | some name ↦ elim (find_first (λ (c : ClientConfig P). c.name == name) state.clients) [
          | some client ↦ some (Str.◌++◌ "client:" name, client.requests_per_minute)
          | none ↦ by_ip
        ]
      ]
