-- ===== src/Samples.antt =====
-- Concrete instances for the examples: a platform whose numbers are natural numbers, a provider
-- that answers or fails by its name, and a small router.
use rusty_provider.Prelude.{
  ℕ, ◌+◌, ◌-◌, ◌*◌, ◌/◌, min, max, String, Option, none, some, List, [], ◌∷◌, false, ltb, leb, eqb,
  if◌then◌else◌, ◌==◌, string_eq, arith,
}
use rusty_provider.Prelude.Int.{pos}
use rusty_provider.Prelude.Results.{ok, err}
use rusty_provider.Platform.{Platform, PlatformLaws}
use rusty_provider.Core.Types.{
  ChatMessage, ChatRequest, ChatResponse, ProviderPreferences, Usage, Role, user, assistant, text,
}
use rusty_provider.Core.Errors.{upstream, auth}
use rusty_provider.Caches.Fifo.{new}
use rusty_provider.Chain.Settings.{
  Candidate, openai, anthropic, RouterSettings, RouterStats, PriceRates,
}
use rusty_provider.Dispatch.{Outside, RouterState}

abbrev pub nat_platform : Platform
nat_platform = record {
  F64 = ℕ;
  F32 = ℕ;
  Json = ℕ;
  of_nat = λ n. n;
  add = λ a b. a + b;
  sub = λ a b. a - b;
  mul = λ a b. a * b;
  div = λ a b. a / b;
  fmin = λ a b. min a b;
  fmax = λ a b. max a b;
  le = leb;
  lt = ltb;
  total_le = leb;
  max_value = 1_000_000_000;
  min_value = 0;
  to_u32 = λ a. min a 4_294_967_295;
  ceil_to_u64 = λ a. a;
  zero32 = 0;
  add32 = λ a b. a + b;
  mul32 = λ a b. a * b;
  div32 = λ a b. a / b;
  sqrt32 = λ a. a;
  is_zero32 = λ a. eqb a 0;
  widen = λ a. a;
}

pub nat_laws : PlatformLaws nat_platform
nat_laws = record {
  le_trans = λ a b c h k. ground arith;
  lt-not-le = λ a b h. ground arith;
  add_grows = λ a c h k. ground arith;
  le_right = λ a b h. ground arith;
  le_lt_trans = λ a b c h k. ground arith;
  lt_or_le = λ a b h k. ground arith;
  fmin_le_right = λ a b h. ground arith;
  sub_one_le = λ a c h. ground arith;
  of_nat_real = λ n. ground arith;
  total_le_trans = λ a b c h k. ground arith;
  total_le_total = λ a b. ground arith;
}

abbrev pub said : Role → String → ChatMessage
said r words = record {
  role = r;
  content = some (text words);
  name = none;
  tool_calls = none;
  tool_call_id = none;
  reasoning = none;
  cache_control = none;
}

abbrev pub hello : ChatMessage
hello = said user "hello"

abbrev pub some_usage : Usage
some_usage = record {
  prompt_tokens = 10;
  completion_tokens = 20;
  total_tokens = 30;
  cached_tokens = none;
  cache_creation_tokens = none;
}

abbrev pub answer : String → ChatResponse nat_platform
answer model = record {
  id = "resp-1";
  object = "chat.completion";
  created = pos 1_700_000_000;
  model = model;
  choices =
      record { index = 0; message = said assistant "hi"; finish_reason = none; logprobs = none }
      ∷ [];
  usage = some some_usage;
  cost_usd = none;
}

abbrev pub request : Option (ProviderPreferences nat_platform) → ChatRequest nat_platform
request prefs = record {
  model = "fast";
  models = none;
  preset = none;
  messages = hello ∷ [];
  temperature = none;
  top_p = none;
  max_tokens = some 100;
  stop = none;
  stream = none;
  user_id = none;
  tools = none;
  tool_choice = none;
  provider = prefs;
  response_format = none;
  reasoning = none;
  top_k = none;
  min_p = none;
  top_a = none;
  frequency_penalty = none;
  presence_penalty = none;
  repetition_penalty = none;
  logit_bias = none;
  seed = none;
  transforms = none;
  logprobs = none;
  top_logprobs = none;
  web_search = none;
}

abbrev pub preferences : ProviderPreferences nat_platform
preferences = record {
  only = none;
  ignore = none;
  sort = none;
  zdr = none;
  data_collection = none;
  auto_bias = none;
  max_price = none;
  require_parameters = none;
  byok = none;
  max_request_price_usd = none;
  budget_fallback = none;
}

abbrev pub rates : ℕ → PriceRates nat_platform
rates p = record {
  prompt_ppm = p;
  completion_ppm = p * 1_000_000;
  cache_read_ppm = p;
  cache_write_ppm = p;
  context_length = none;
  quality_score = none;
}

-- "down" fails with a transient error, "locked" with one that is not retryable, others answer.
abbrev pub candidates : List Candidate
candidates = ("down", "m") ∷ ("up", "m") ∷ []

abbrev pub settings : RouterSettings nat_platform
settings = record {
  providers = "down" ∷ "up" ∷ "locked" ∷ [];
  provider_kinds = ("down", openai) ∷ ("up", anthropic) ∷ [];
  routes = ("fast", "down/m" ∷ "up/m" ∷ []) ∷ [];
  fusion_routes = [];
  pricing = ("down/m", rates 5) ∷ ("up/m", rates 3) ∷ [];
  zdr_providers = [];
  no_training_providers = [];
  provider_rpm = [];
  auto_routing = none;
  free_tier_settings = [];
  persistent = false;
  embedding_model = none;
}

abbrev pub stats : RouterStats nat_platform
stats = record { latency = []; throughput = []; uptime = []; free_tier_usage = [] }

-- The panel one after the other, each within its time.
abbrev pub run_all : {A : Type 0} → List (ℕ → ℕ × Option A) → ℕ → ℕ × List (Option A)
run_all [] n = (n, [])
run_all (f ∷ fs) n = let (m, a) = f n in let (k, rest) = run_all fs m in (k, a ∷ rest)

-- The outside's state counts the calls.
abbrev pub outside : Outside nat_platform
outside = record {
  State = ℕ;
  chat = λ n name req model key. (
    n + 1,
    if name == "down"
        then err (upstream 503 "overloaded")
        else if name == "locked"
        then err (auth "no key")
        else ok (answer model),
  );
  chat_stream = λ n name req model key. (n + 1, ok []);
  embeddings = λ n name req model. (
    n + 1,
    ok (record {
      object = "list";
      results = record { object = "embedding"; embedding = 1 ∷ []; index = 0 } ∷ [];
      model = model;
      usage = none;
    }),
  );
  timeout = λ limit call n. let (m, r) = call n in (m, some r);
  join_all = λ calls n. run_all calls n;
  key_for = λ req. 7;
  instant = λ n. n * 1_000_000_000;
  now_unix = λ n. pos n;
  sleep = λ n. n;
  compress = λ s. s;
}

abbrev pub router_state : RouterState nat_platform ℕ
router_state = record {
  outside = 0;
  stats = stats;
  outbound = [];
  usage = [];
  generations = new;
  reasoning_replay = new;
  cache = none;
  semantic_cache = none;
  attempts = [];
  cache_lookups = [];
  persisted = [];
}
