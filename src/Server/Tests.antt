-- ===== src/Server/Tests.antt =====
-- Examples for the server: three clients of two organizations, one of them an admin.
use rusty_provider.Prelude.{
  ℕ, String, Option, none, some, [], ◌∷◌, true, false, lookup, string_eq, ◌≡◌, ◌⊎◌, ◌↔◌, refl,
}
use rusty_provider.Prelude.Results.{Result, ok, err}
use rusty_provider.Core.Types.{ChatResponse, is_streaming}
use rusty_provider.Budget.Calendar.{daily}
use rusty_provider.Budget.Spend.{
  Persistence, ClientConfig, ClientRole, member, admin, BudgetState, record_client_spend,
}
use rusty_provider.Samples.{nat_platform, answer, request, settings, outside, router_state}
use rusty_provider.Caches.Response.{ResponseCache, response_get}
use rusty_provider.Dispatch.Stream.{DispatchTrace}
use rusty_provider.Requests.Guardrails.{Regexes}
use rusty_provider.Server.State.{HttpError, JwtLibrary, AppState}
use rusty_provider.Server.Auth.{
  AdminIdentity, in_admin_scope, bearer_token, check_auth, check_admin_auth,
}
use rusty_provider.Server.Auth.Laws.{IsOpen, IsAccepted, check_auth-passes_iff}
use rusty_provider.Server.Admin.{UpdateClientRequest, ClientProvisionResponse, admin_update_client}
use rusty_provider.Server.Admin.Scope.{
  AdminCall, update, delete, header_of, after_call, outsiders, after_call-outsiders,
}
use rusty_provider.Server.Admin.Keys.{IsOwned, started, called, reachable-IsOwned}
use rusty_provider.Server.Admin.Budgets.{unwarned, admin_update_client-budget}
use rusty_provider.Server.Chat.{
  Stages, ChatState, whole, answer as answer_chat, chat_completions_dispatch,
}
use rusty_provider.Server.Limits.{LimitState, chat_completions}
use rusty_provider.Server.Limits.Laws.{IsHandled, chat_completions-IsHandled}
use rusty_provider.Server.Chat.Laws.{answer-hit_charged}

abbrev database : Persistence nat_platform
database = record {
  Store = ℕ;
  client_spend = λ store name. ok none;
  record_client_spend = λ store name key cost. store;
  reset_client_spend = λ store name key. store;
}

abbrev client : String → Option String → ClientRole → ClientConfig nat_platform
client name organization role = record {
  name = name;
  api_key_env = "KEY";
  requests_per_minute = 60;
  budget_usd = some 100;
  budget_period = daily;
  budget_warning_threshold = some 1;
  organization = organization;
  workspace = none;
  role = role;
}

abbrev budgets : BudgetState database
budgets = record {
  client_budgets =
      ("ann", record { budget_usd = 100; period = daily; warning_threshold = some 1 }) ∷ [];
  client_spend = [];
  persistence = none;
  webhook = false;
}

abbrev app : AppState database
app = record {
  api_key = none;
  client_keys = ("k-ann", ("ann", 60)) ∷ ("k-bob", ("bob", 60)) ∷ ("k-eve", ("eve", 60)) ∷ [];
  default_rate_limit_rpm = none;
  clients =
      client "ann" (some "acme") member
      ∷ client "bob" (some "acme") admin
      ∷ client "eve" none member
      ∷ [];
  admin_key = none;
  jwt = none;
  budgets = budgets;
}

abbrev no_jwt : JwtLibrary
no_jwt = record { Claims = ℕ; verify = λ token. none; claim_as_str = λ claims name. none }

abbrev as_bob : Option String
as_bob = some "Bearer k-bob"

check_auth-passes_iff_example : (check_auth no_jwt app as_bob ≡ none) ↔ (
    IsOpen no_jwt app
    ⊎ ((token : String) × (bearer_token as_bob ≡ some token) × IsAccepted no_jwt app token))
check_auth-passes_iff_example = check_auth-passes_iff no_jwt app as_bob

abbrev rotate : UpdateClientRequest nat_platform
rotate = record {
  requests_per_minute = none;
  budget_usd = none;
  budget_period = none;
  rotate_api_key = true;
}

-- The admin of one organization updates a client of its own, and tries to delete another's.
abbrev own : AdminCall nat_platform
own = update as_bob "fresh" "ann" (ok rotate)

abbrev foreign : AdminCall nat_platform
foreign = delete as_bob "eve"

after_call-outsiders_example :
    ((identity : AdminIdentity)
      → check_admin_auth app (header_of foreign) ≡ ok identity
      → outsiders identity (after_call foreign app) ≡ outsiders identity app)
    × ((e : HttpError)
        → check_admin_auth app (header_of foreign) ≡ err e
        → after_call foreign app ≡ app)
after_call-outsiders_example = after_call-outsiders foreign app

app-IsOwned : IsOwned app
app-IsOwned = (refl, (refl, (refl, tt)))

reachable-IsOwned_example : IsOwned (after_call foreign (after_call own app))
reachable-IsOwned_example =
    reachable-IsOwned app (after_call foreign (after_call own app))
      (called (after_call own app) foreign (called app own started)) app-IsOwned

-- The rotation of a key takes the client's warning threshold from the router.
abbrev rotated : AppState database × Result (ClientProvisionResponse nat_platform) HttpError
rotated = admin_update_client as_bob app "fresh" "ann" (ok rotate)

abbrev provisioned : ClientProvisionResponse nat_platform
provisioned = record {
  name = "ann";
  organization = some "acme";
  workspace = none;
  role = member;
  requests_per_minute = 60;
  budget_usd = some 100;
  budget_period = daily;
  api_key = some "fresh";
}

rotated-provisioned : rotated ≡ (rotated.0, ok provisioned)
unfolding admin_update_client lookup in_admin_scope
rotated-provisioned = refl

admin_update_client-budget_example :
    lookup "ann" rotated.0.budgets.client_budgets ≡ unwarned nat_platform (some 100) daily
admin_update_client-budget_example =
    admin_update_client-budget as_bob app rotated.0 "fresh" "ann" rotate provisioned
      rotated-provisioned

-- A cache that holds a response with its cost.
abbrev paid : ChatResponse nat_platform
paid = record (answer "m") { cost_usd = some 60 }

abbrev holding : ResponseCache nat_platform
holding = record {
  ttl = 10;
  max_entries = 2;
  queue = record { order = 7 ∷ []; entries = (7, (0, paid)) ∷ [] };
}

abbrev no_regexes : Regexes
no_regexes = record {
  Regex = String;
  Error = String;
  compile = λ pattern. err pattern;
  is_match = λ pattern words. false;
  replace_all = λ pattern words replacement. words;
}

abbrev no_stages : Stages nat_platform no_regexes
no_stages = record {
  presets = [];
  web_search = none;
  guardrails = [];
  moderation = none;
  error_text = λ e. "";
  exceeded_text = λ name exceeded. "";
}

abbrev chat_state : ChatState database ℕ
chat_state = record {
  router = record router_state { cache = some holding };
  budgets = budgets;
  daily = [];
  events = [];
  tasks = [];
}

whole_body : is_streaming (request none) ≡ false
unfolding is_streaming
whole_body = refl

holds : (response_get (outside.instant 0) (outside.key_for (request none)) holding).1 ≡ some paid
unfolding response_get lookup
holds = refl

answer-hit_charged_example :
    let (st', result) =
      answer_chat database outside settings no_stages 0 (some "ann") (request none) chat_state in
    (st'.budgets ≡ (record_client_spend database budgets "ann" 60 (outside.now_unix 0)).0)
    × (st'.router.usage ≡ chat_state.router.usage)
    × (st'.router.attempts ≡ chat_state.router.attempts)
    × ((trace : DispatchTrace) × (result ≡ ok (whole paid trace)))
answer-hit_charged_example =
    answer-hit_charged database outside settings no_stages 0 "ann" (request none) chat_state paid 60
      holding whole_body refl refl holds refl

-- A chat request of a client whose bucket has one token left.
abbrev limit_state : LimitState nat_platform (ChatState database ℕ)
limit_state = record {
  rate_limiter = ("client:ann", record { capacity = 60; tokens = 1; last_refill = 0 }) ∷ [];
  rejections = [];
  inner = chat_state;
}

chat_completions-IsHandled_example :
    IsHandled no_jwt app
      (λ client.
        chat_completions_dispatch database outside settings no_stages 0 client (request none))
      0
      (some "Bearer k-ann")
      "127.0.0.1"
      limit_state
      (chat_completions no_jwt app outside settings no_stages 0 0
        (some "Bearer k-ann")
        "127.0.0.1"
        (request none)
        limit_state)
chat_completions-IsHandled_example =
    chat_completions-IsHandled no_jwt app outside settings no_stages 0 0 (some "Bearer k-ann")
      "127.0.0.1" (request none) limit_state
