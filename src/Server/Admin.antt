-- ===== src/Server/Admin.antt =====
-- The admin API's provisioning of clients: the handlers `admin_create_client`, `admin_update_client`,
-- `admin_delete_client` and `admin_reset_client_spend` of `crates/server/src/routes.rs`. A handler takes
-- the parsed body; `generated` is what `generate_api_key` draws.
pub mod Scope
pub mod Owners
pub mod Keys
pub mod Budgets
use Prim.Native.String as Str
use rusty_provider.Prelude.{
  ℕ, String, Option, none, some, List, [], ◌∷◌, ◌++◌, Map, Bool, true, false, if◌then◌else◌, ◌==◌,
  ◌&&◌, ◌||◌, not, is_none, is_some, is_empty, unwrap_or, lookup, insert, remove, contains_key, any,
  retain, length, string_eq, eqb,
}
use rusty_provider.Prelude.Int.{ℤ}
use rusty_provider.Prelude.Results.{Result, ok, err, ◌>>=◌}
use rusty_provider.Platform.{Platform}
use rusty_provider.Budget.Calendar.{BudgetPeriod}
use rusty_provider.Budget.Spend.{
  Persistence, ClientConfig, ClientRole, BudgetState, BudgetEvent, set_client_budget, remove_client,
  reset_client_spend,
}
use rusty_provider.Server.State.{HttpError, json_error, AppState}
use rusty_provider.Server.Auth.{
  AdminIdentity, global, scoped, in_admin_scope, check_admin_auth, find_first,
}

module _ (P : Platform) where
  pub record CreateClientRequest : Type 0 where
    pub name : String
    pub requests_per_minute : ℕ
    pub budget_usd : Option P.F64
    pub budget_period : BudgetPeriod
    pub api_key : Option String
    pub organization : Option String
    pub workspace : Option String
    pub role : ClientRole

  -- For `budget_usd`, none is an omitted field and `some none` an explicit null.
  pub record UpdateClientRequest : Type 0 where
    pub requests_per_minute : Option ℕ
    pub budget_usd : Option (Option P.F64)
    pub budget_period : Option BudgetPeriod
    pub rotate_api_key : Bool

  pub record ClientProvisionResponse : Type 0 where
    pub name : String
    pub organization : Option String
    pub workspace : Option String
    pub role : ClientRole
    pub requests_per_minute : ℕ
    pub budget_usd : Option P.F64
    pub budget_period : BudgetPeriod
    pub api_key : Option String

abbrev pub no_client : String → HttpError
no_client name = json_error 404 (Str.◌++◌ "no client named \"" (Str.◌++◌ name "\""))

abbrev pub no_budget : String → HttpError
no_budget name =
    json_error 404 (Str.◌++◌ "no client named \"" (Str.◌++◌ name "\" with a configured budget"))

-- The first element that passes, changed in place, with the changed element.
unfoldable pub update_first : {A : Type 0} → (A → Bool) → (A → A) → List A → Option (A × List A)
update_first p change [] = none
update_first p change (x ∷ xs) =
    let rest = update_first p change xs in
    if p x
    then some (change x, change x ∷ xs)
    else elim rest [ none ↦ none | some (y, ys) ↦ some (y, x ∷ ys) ]

-- The first key of a client. A client has one key, so the order of the map does not matter.
unfoldable pub key_of_client : String → Map String (String × ℕ) → Option String
key_of_client name [] = none
key_of_client name ((key, (n, rpm)) ∷ keys) =
    if n == name then some key else key_of_client name keys

unfoldable pub is_negative : (P : Platform) → Option P.F64 → Bool
is_negative P none = false
is_negative P (some b) = P.lt b (P.of_nat 0)

module _ {P : Platform} where
  unfoldable pub validate_create : CreateClientRequest P → Option HttpError
  unfolding is_negative
  validate_create req =
      if eqb (Str.len req.name) 0
      then some (json_error 400 "\"name\" must not be empty")
      else if eqb req.requests_per_minute 0
      then some (json_error 400 "\"requests_per_minute\" must be greater than zero")
      else if is_negative P req.budget_usd
      then some (json_error 400 "\"budget_usd\" must not be negative")
      else none

  unfoldable pub validate_update : UpdateClientRequest P → Option HttpError
  unfolding is_negative
  validate_update req =
      if eqb (unwrap_or req.requests_per_minute 1) 0
      then some (json_error 400 "\"requests_per_minute\" must be greater than zero")
      else if is_negative P (unwrap_or req.budget_usd none)
      then some (json_error 400 "\"budget_usd\" must not be negative")
      else none

  -- The organization of a new client: a scoped admin's own.
  unfoldable pub organization_for : AdminIdentity → CreateClientRequest P → Option String
  organization_for global req = req.organization
  organization_for (scoped organization) req = organization

  unfoldable pub new_client : AdminIdentity → CreateClientRequest P → ClientConfig P
  unfolding organization_for
  new_client identity req = record {
    name = req.name;
    api_key_env = "";
    requests_per_minute = req.requests_per_minute;
    budget_usd = req.budget_usd;
    budget_period = req.budget_period;
    budget_warning_threshold = none;
    organization = organization_for identity req;
    workspace = req.workspace;
    role = req.role;
  }

  unfoldable pub changed_client : UpdateClientRequest P → ClientConfig P → ClientConfig P
  changed_client req client = record client {
    requests_per_minute = unwrap_or req.requests_per_minute client.requests_per_minute;
    budget_usd = unwrap_or req.budget_usd client.budget_usd;
    budget_period = unwrap_or req.budget_period client.budget_period;
  }

  unfoldable pub provision_response : ClientConfig P → Option String → ClientProvisionResponse P
  provision_response client api_key = record {
    name = client.name;
    organization = client.organization;
    workspace = client.workspace;
    role = client.role;
    requests_per_minute = client.requests_per_minute;
    budget_usd = client.budget_usd;
    budget_period = client.budget_period;
    api_key = api_key;
  }

  -- A client's budget as `set_client_budget` takes it.
  unfoldable pub budget_of : ClientConfig P → Option (P.F64 × BudgetPeriod)
  budget_of client = elim client.budget_usd [
    | none ↦ none
    | some budget_usd ↦ some (budget_usd, client.budget_period)
  ]

module _ {P : Platform} {B : Persistence P} (header : Option String) (state : AppState B) where
  -- What the handler does for an identity, once the request is valid.
  unfoldable pub create_client :
      (generated : String)
      → AdminIdentity
      → CreateClientRequest P
      → AppState B × Result (ClientProvisionResponse P) HttpError
  unfolding new_client provision_response budget_of
  create_client generated identity req =
      let api_key = unwrap_or req.api_key generated in
      let client = new_client identity req in
      if any (λ (c : ClientConfig P). c.name == req.name) state.clients
      then (
        state,
        err (json_error 409 (Str.◌++◌ "a client named \"" (Str.◌++◌ req.name "\" already exists"))),
      )
      else if contains_key api_key state.client_keys
      then (state, err (json_error 409 "a client with this API key already exists"))
      else (
        record state {
          client_keys = insert api_key (req.name, req.requests_per_minute) state.client_keys;
          clients = state.clients ++ client ∷ [];
          budgets = set_client_budget B state.budgets req.name (budget_of client);
        },
        ok (provision_response client (some api_key)),
      )

  unfoldable pub admin_create_client :
      (generated : String)
      → Result (CreateClientRequest P) HttpError
      → AppState B × Result (ClientProvisionResponse P) HttpError
  unfolding create_client validate_create check_admin_auth
  admin_create_client generated body = elim (check_admin_auth state header) [
    | err e ↦ (state, err e)
    | ok identity ↦ elim body [
      | err e ↦ (state, err e)
      | ok req ↦ elim (validate_create req) [
        | some e ↦ (state, err e)
        | none ↦ create_client generated identity req
      ]
    ]
  ]

  -- The keys after an update, and the new key if one was issued.
  unfoldable pub update_keys :
      (generated name : String) → (rotate : Bool) → ℕ → Map String (String × ℕ) × Option String
  unfolding key_of_client
  update_keys generated name rotate rpm =
      let existing_key = key_of_client name state.client_keys in
      if rotate
      then (
        insert generated (name, rpm)
            (elim existing_key [
              | none ↦ state.client_keys
              | some old_key ↦ remove old_key state.client_keys
            ]),
        some generated,
      )
      else (
        elim existing_key [
          | none ↦ state.client_keys
          | some old_key ↦ insert old_key (name, rpm) state.client_keys
        ],
        none,
      )

  unfoldable pub update_client :
      (generated name : String)
      → AdminIdentity
      → UpdateClientRequest P
      → AppState B × Result (ClientProvisionResponse P) HttpError
  unfolding update_first changed_client update_keys provision_response budget_of
  update_client generated name identity req =
      elim (update_first (λ (c : ClientConfig P). c.name == name && in_admin_scope identity c)
        (changed_client req) state.clients) [
          | none ↦ (state, err (no_client name))
          | some (updated, clients) ↦
              let (client_keys, new_api_key) =
                update_keys generated name req.rotate_api_key updated.requests_per_minute in
              (
                record state {
                  client_keys = client_keys;
                  clients = clients;
                  budgets = set_client_budget B state.budgets name (budget_of updated);
                },
                ok (provision_response updated new_api_key),
              )
        ]

  unfoldable pub admin_update_client :
      (generated name : String)
      → Result (UpdateClientRequest P) HttpError
      → AppState B × Result (ClientProvisionResponse P) HttpError
  unfolding update_client validate_update check_admin_auth
  admin_update_client generated name body = elim (check_admin_auth state header) [
    | err e ↦ (state, err e)
    | ok identity ↦ elim body [
      | err e ↦ (state, err e)
      | ok req ↦ elim (validate_update req) [
        | some e ↦ (state, err e)
        | none ↦ update_client generated name identity req
      ]
    ]
  ]

  unfoldable pub delete_client :
      (name : String) → AdminIdentity → AppState B × Result (Unit {0}) HttpError
  delete_client name identity =
      let clients =
        retain (λ (c : ClientConfig P). not (c.name == name && in_admin_scope identity c))
          state.clients in
      if eqb (length clients) (length state.clients) then (state, err (no_client name)) else (
        record state {
          client_keys =
              retain (λ (k : String × (String × ℕ)). not (k.1.0 == name)) state.client_keys;
          clients = clients;
          budgets = remove_client B state.budgets name;
        },
        ok tt,
      )

  unfoldable pub admin_delete_client : (name : String) → AppState B × Result (Unit {0}) HttpError
  unfolding delete_client check_admin_auth
  admin_delete_client name = elim (check_admin_auth state header) [
    | err e ↦ (state, err e)
    | ok identity ↦ delete_client name identity
  ]

  -- With the webhook events that the reset sends.
  unfoldable pub admin_reset_client_spend :
      (name : String) → (now : ℤ) → AppState B × List (BudgetEvent P) × Result (Unit {0}) HttpError
  unfolding check_admin_auth
  admin_reset_client_spend name now = elim (check_admin_auth state header) [
    | err e ↦ (state, [], err e)
    | ok identity ↦
        if any (λ (c : ClientConfig P). c.name == name && in_admin_scope identity c) state.clients
        then (let (budgets, events, reset) = reset_client_spend B state.budgets name now in
            (
              record state { budgets = budgets },
              events,
              if reset then ok tt else err (no_budget name),
            ))
        else (state, [], err (no_budget name))
  ]
