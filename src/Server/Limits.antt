-- ===== src/Server/Limits.antt =====
-- The two endpoints of `crates/server/src/routes.rs` that are authenticated and rate limited,
-- `chat_completions` and `embeddings`, with the 429 response and the rate limit's headers. Nothing
-- here changes the `AppState` but its rate limiter and its router.
pub mod Laws
use rusty_provider.Prelude.{ℕ, String, Option, none, some, List, [], ◌∷◌, ◌++◌, Map, max}
use Prim.Native.String as Str
use rusty_provider.Prelude.Results.{Result, ok, err}
use rusty_provider.Prelude.Texts.{decimal}
use rusty_provider.Platform.{Platform}
use rusty_provider.Core.Types.{ChatRequest}
use rusty_provider.Core.Embeddings.{EmbeddingsRequest, EmbeddingsResponse}
use rusty_provider.Core.RateLimit.{TokenBucket, RateLimitStatus, check}
use rusty_provider.Budget.Spend.{Persistence}
use rusty_provider.Chain.Settings.{RouterSettings}
use rusty_provider.Dispatch.{Outside, RouterState}
use rusty_provider.Dispatch.Embed.{embeddings}
use rusty_provider.Requests.Guardrails.{Regexes}
use rusty_provider.Server.State.{HttpError, JwtLibrary, AppState}
use rusty_provider.Server.Auth.{check_auth, resolve_client_identity, resolve_rate_limit}
use rusty_provider.Server.Chat.{Stages, ChatState, ChatReply, error_of, chat_completions_dispatch}

-- The rate limiter's buckets, the identities of the rejections that the router counts, and the state
-- of what is behind the limit.
pub record LimitState (P : Platform) (S : Type 0) : Type 0 where
  pub rate_limiter : Map String (TokenBucket P)
  pub rejections : List String
  pub inner : S

-- A response with the headers that the rate limit adds.
pub record LimitedReply (A : Type 0) : Type 0 where
  pub body : Result A HttpError
  pub headers : List (String × String)

module _ {P : Platform} where
  unfoldable pub apply_rate_limit_headers : RateLimitStatus P → List (String × String)
  apply_rate_limit_headers status =
      ("x-ratelimit-limit", decimal status.limit)
      ∷ ("x-ratelimit-remaining", decimal status.remaining)
      ∷ ("x-ratelimit-reset", decimal (P.ceil_to_u64 status.reset_secs))
      ∷ []

  unfoldable pub rate_limited_response : {A : Type 0} → RateLimitStatus P → LimitedReply A
  unfolding apply_rate_limit_headers
  rate_limited_response status =
      let secs = max (P.ceil_to_u64 status.retry_after_secs) 1 in
      record {
        body = err (record {
          status = 429;
          message = Str.◌++◌ "rate limit exceeded, retry after " (Str.◌++◌ (decimal secs) "s");
          retry_after_secs = some secs;
        });
        headers = apply_rate_limit_headers status;
      }

module _ {P : Platform} {B : Persistence P} (J : JwtLibrary) (state : AppState B) {S A : Type 0}
    (serve : Option String → S → S × Result A HttpError) where
  abbrev pub pass_on :
      Option String → List (String × String) → LimitState P S → LimitState P S × LimitedReply A
  pass_on client headers st =
      let (inner, result) = serve client st.inner in
      (record st { inner = inner }, record { body = result; headers = headers })

  -- What a check of the limiter leads to, in the state after it.
  unfoldable pub after_check :
      (identity : String)
      → Option String
      → LimitState P S
      → Result (RateLimitStatus P) (RateLimitStatus P)
      → LimitState P S × LimitedReply A
  unfolding rate_limited_response apply_rate_limit_headers
  after_check identity client st (ok status) = pass_on client (apply_rate_limit_headers status) st
  after_check identity client st (err status) =
      (record st { rejections = st.rejections ++ identity ∷ [] }, rate_limited_response status)

  -- The limiter's check, at the limiter's clock, for an identity that has a limit.
  unfoldable pub within_limit :
      (now : ℕ)
      → Option (String × ℕ)
      → Option String
      → LimitState P S
      → LimitState P S × LimitedReply A
  unfolding after_check
  within_limit now none client st = pass_on client [] st
  within_limit now (some (identity, rpm)) client st =
      let (rate_limiter, result) = check st.rate_limiter identity rpm now in
      after_check identity client (record st { rate_limiter = rate_limiter }) result

  unfoldable pub limited :
      (now : ℕ)
      → (header : Option String) → (ip : String) → LimitState P S
      → LimitState P S × LimitedReply A
  unfolding within_limit
  limited now header ip st = elim (check_auth J state header) [
    | some e ↦ (st, record { body = err e; headers = [] })
    | none ↦
        let client = resolve_client_identity J state header in
        within_limit now (resolve_rate_limit state client ip) client st
  ]

module _ {P : Platform} {X : Regexes} {B : Persistence P} (J : JwtLibrary) (state : AppState B)
    (O : Outside P) (s : RouterSettings P) (stages : Stages P X) where
  unfoldable pub chat_completions :
      (now now_nanos : ℕ)
      → (header : Option String) → (ip : String) → ChatRequest P
      → LimitState P (ChatState B O.State)
      → LimitState P (ChatState B O.State) × LimitedReply (ChatReply P)
  unfolding limited
  chat_completions now now_nanos header ip req =
      limited J state (λ client. chat_completions_dispatch B O s stages now_nanos client req) now
        header ip

  unfoldable pub serve_embeddings :
      (now : ℕ)
      → (header : Option String) → (ip : String) → EmbeddingsRequest
      → LimitState P (RouterState P O.State)
      → LimitState P (RouterState P O.State) × LimitedReply (EmbeddingsResponse P)
  unfolding limited error_of
  serve_embeddings now header ip req =
      limited J state
        (λ client st.
          let (st', result) = embeddings O s req st in
          (st', elim result [ ok resp ↦ ok resp | err e ↦ err (error_of stages e) ]))
        now header ip
