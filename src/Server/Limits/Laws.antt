-- ===== src/Server/Limits/Laws.antt =====
-- What a request that is refused before it is served leaves behind.
use rusty_provider.Prelude.{
  ℕ, String, Option, none, some, [], ◌∷◌, ◌++◌, Map, ◌≡◌, ◌≤◌, max, ◌⊎◌, inl, inr, refl, arith,
}
use rusty_provider.Prelude.Results.{Result, ok, err}
use rusty_provider.Platform.{Platform}
use rusty_provider.Core.RateLimit.{TokenBucket, RateLimitStatus, check}
use rusty_provider.Budget.Spend.{Persistence}
use rusty_provider.Server.State.{HttpError, JwtLibrary, AppState}
use rusty_provider.Server.Auth.{check_auth, resolve_client_identity, resolve_rate_limit}
use rusty_provider.Core.Types.{ChatRequest}
use rusty_provider.Chain.Settings.{RouterSettings}
use rusty_provider.Dispatch.{Outside}
use rusty_provider.Requests.Guardrails.{Regexes}
use rusty_provider.Server.Chat.{Stages, ChatState, chat_completions_dispatch}
use rusty_provider.Server.Limits.{
  LimitState, LimitedReply, apply_rate_limit_headers, rate_limited_response, after_check,
  within_limit, limited, chat_completions,
}

module _ {P : Platform} {S A : Type 0} where
  -- The limit lets the request pass: it has none, or the limiter's check takes a token of its
  -- identity's bucket, and the headers tell of that check.
  abbrev pub IsAllowed :
      (now : ℕ) → Option (String × ℕ) → LimitState P S → LimitState P S × LimitedReply A → Type 0
  IsAllowed now none st (st', reply) = (st'.rate_limiter ≡ st.rate_limiter) × (reply.headers ≡ [])
  IsAllowed now (some (identity, rpm)) st (st', reply) =
      (status : RateLimitStatus P) × (check st.rate_limiter identity rpm now
        ≡ (st'.rate_limiter, ok status))
      × (reply.headers ≡ apply_rate_limit_headers status)

  -- The request is allowed and served, and no rejection is counted.
  abbrev pub IsServed :
      (S → S × Result A HttpError)
      → (now : ℕ) → Option (String × ℕ)
      → LimitState P S
      → LimitState P S × LimitedReply A
      → Type 0
  IsServed serve now limit st (st', reply) =
      IsAllowed now limit st (st', reply)
      × (st'.inner ≡ (serve st.inner).0)
      × (reply.body ≡ (serve st.inner).1)
      × (st'.rejections ≡ st.rejections)

  -- The limiter refuses the identity: what is behind the limit stays as it is, the rejection is
  -- counted, and the client is told to retry after a second or more.
  abbrev pub IsLimited :
      (now : ℕ) → Option (String × ℕ) → LimitState P S → LimitState P S × LimitedReply A → Type 0
  IsLimited now limit st (st', reply) =
      (identity : String) × (rpm : ℕ) × (status : RateLimitStatus P) × (e : HttpError) × (secs : ℕ)
      × (limit ≡ some (identity, rpm))
      × (check st.rate_limiter identity rpm now ≡ (st'.rate_limiter, err status))
      × (reply.headers ≡ apply_rate_limit_headers status)
      × (st'.inner ≡ st.inner)
      × (st'.rejections ≡ st.rejections ++ identity ∷ [])
      × (reply.body ≡ err e)
      × (e.status ≡ 429)
      × (e.retry_after_secs ≡ some secs)
      × (1 ≤ secs)

module _ {P : Platform} {B : Persistence P} (J : JwtLibrary) (state : AppState B)
    {S A : Type 0} where
  -- A request that the authentication refuses changes nothing. Another one is allowed and served for
  -- the client it is from, or limited.
  abbrev pub IsHandled :
      (Option String → S → S × Result A HttpError)
      → (now : ℕ) → (header : Option String) → (ip : String) → LimitState P S
      → LimitState P S × LimitedReply A
      → Type 0
  IsHandled serve now header ip st after =
      let client = resolve_client_identity J state header in
      ((e : HttpError) × (check_auth J state header ≡ some e)
        × (after.0 ≡ st)
        × (after.1.body ≡ err e)
        × (after.1.headers ≡ []))
      ⊎ ((check_auth J state header ≡ none)
          × (IsServed (serve client) now (resolve_rate_limit state client ip) st after
              ⊎ IsLimited now (resolve_rate_limit state client ip) st after))

  module _ (serve : Option String → S → S × Result A HttpError) where
    after_check-cases :
        (now : ℕ) (identity : String) (rpm : ℕ) (client : Option String) (st : LimitState P S)
        (buckets : Map String (TokenBucket P))
        (result : Result (RateLimitStatus P) (RateLimitStatus P))
        → check st.rate_limiter identity rpm now ≡ (buckets, result)
        → let after =
            after_check J state serve identity client
              (record st { rate_limiter = buckets })
              result in
          IsServed (serve client) now (some (identity, rpm)) st after
          ⊎ IsLimited now (some (identity, rpm)) st after
    unfolding after_check rate_limited_response
    after_check-cases now identity rpm client st buckets (ok status) is =
        inl ((status, is, refl), refl, refl, refl)
    after_check-cases now identity rpm client st buckets (err status) is = inr (
      identity,
      rpm,
      status,
      _,
      max (P.ceil_to_u64 status.retry_after_secs) 1,
      refl,
      is,
      refl,
      refl,
      refl,
      refl,
      refl,
      refl,
      ground arith,
    )

    within_limit-cases :
        (now : ℕ) (limit : Option (String × ℕ)) (client : Option String) (st : LimitState P S)
        → let after = within_limit J state serve now limit client st in
          IsServed (serve client) now limit st after ⊎ IsLimited now limit st after
    unfolding within_limit
    within_limit-cases now none client st = inl ((refl, refl), refl, refl, refl)
    within_limit-cases now (some (identity, rpm)) client st =
        let checked = check st.rate_limiter identity rpm now in
        after_check-cases now identity rpm client st checked.0 checked.1 refl

    limited-IsHandled :
        (now : ℕ) (header : Option String) (ip : String) (st : LimitState P S)
        → IsHandled serve now header ip st (limited J state serve now header ip st)
    unfolding limited
    limited-IsHandled now header ip st = by_auth (check_auth J state header) refl
      where
        by_auth :
            (refused : Option HttpError)
            → check_auth J state header ≡ refused
            → IsHandled serve now header ip st
                (elim refused as (λ r. LimitState P S × LimitedReply A) [
                  | none ↦
                      let client = resolve_client_identity J state header in
                      within_limit J state serve now (resolve_rate_limit state client ip) client st
                  | some e ↦ (st, record { body = err e; headers = [] })
                ])
        by_auth none is =
            let client = resolve_client_identity J state header in
            inr (is, within_limit-cases now (resolve_rate_limit state client ip) client st)
        by_auth (some e) is = inl (e, is, refl, refl, refl)

module _ {P : Platform} {X : Regexes} {B : Persistence P} (J : JwtLibrary) (state : AppState B)
    (O : Outside P) (s : RouterSettings P) (stages : Stages P X) where
  -- A chat request that check_auth refuses is answered with that refusal and changes nothing. For any
  -- other one, either its identity has no rate limit or the limiter's check passes, it is served by
  -- chat_completions_dispatch for the client it is from, and the headers tell of the check; or the
  -- check refuses the identity, neither the router nor a budget changes, the rejection is counted, and
  -- the client is told with a 429 to retry after a second or more. The buckets are then
  -- those after the check, and without a check they stay the same.
  pub chat_completions-IsHandled :
      (now now_nanos : ℕ) (header : Option String) (ip : String) (req : ChatRequest P)
      (st : LimitState P (ChatState B O.State))
      → IsHandled J state
          (λ client. chat_completions_dispatch B O s stages now_nanos client req)
          now
          header
          ip
          st
          (chat_completions J state O s stages now now_nanos header ip req st)
  unfolding chat_completions
  chat_completions-IsHandled now now_nanos header ip req st =
      limited-IsHandled J state
        (λ client. chat_completions_dispatch B O s stages now_nanos client req) now header ip st
