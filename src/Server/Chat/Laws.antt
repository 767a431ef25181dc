-- ===== src/Server/Chat/Laws.antt =====
-- What a client is charged for a response that a cache holds.
use rusty_provider.Prelude.{ℕ, String, Option, none, some, false, ◌≡◌, ap, ◌∙◌, arith}
use rusty_provider.Prelude.Results.{ok}
use rusty_provider.Platform.{Platform}
use rusty_provider.Core.Types.{ChatRequest, ChatResponse, is_streaming}
use rusty_provider.Budget.Spend.{Persistence, record_client_spend}
use rusty_provider.Caches.Response.{ResponseCache, response_get}
use rusty_provider.Chain.Settings.{RouterSettings}
use rusty_provider.Dispatch.{Outside, RouterState}
use rusty_provider.Dispatch.Stream.{DispatchTrace}
use rusty_provider.Dispatch.Cached.{dispatch_traced}
use rusty_provider.Dispatch.Cached.Laws.{dispatch_traced-hit}
use rusty_provider.Requests.Guardrails.{Regexes}
use rusty_provider.Server.Chat.{Stages, ChatState, whole, charge, answer}

module _ {P : Platform} {X : Regexes} (B : Persistence P) (O : Outside P) (s : RouterSettings P)
    (stages : Stages P X) where
  answer-whole :
      (now_nanos : ℕ) (client : Option String) (req : ChatRequest P) (st : ChatState B O.State)
      (router : RouterState P O.State) (resp : ChatResponse P) (trace : DispatchTrace)
      → dispatch_traced O s req now_nanos st.router ≡ (router, ok (resp, trace))
      → answer B O s stages now_nanos client req st ≡ (
        charge B client resp.usage resp.cost_usd
            (O.now_unix router.outside)
            (record st { router = router }),
        ok (whole resp trace),
      )
  unfolding answer
  answer-whole now_nanos client req st router resp trace h = ground (arith, h)

  charge-parts :
      (name : String) (cost : P.F64) (resp : ChatResponse P) (router : RouterState P O.State)
      (st : ChatState B O.State)
      → resp.cost_usd ≡ some cost
      → let paid =
          charge B
            (some name)
            resp.usage
            resp.cost_usd
            (O.now_unix router.outside)
            (record st { router = router }) in
        (paid.budgets ≡ (record_client_spend B st.budgets name cost (O.now_unix router.outside)).0)
        × (paid.router ≡ router)
  unfolding charge
  charge-parts name cost resp router st costs = ground (arith, costs)

  -- When the exact cache answers a client's request that is not streaming, the client's spend is
  -- recorded again with the cost that the stored response carries, although nothing is dispatched and
  -- the router's usage counts stay as they are.
  pub answer-hit_charged :
      (now_nanos : ℕ) (name : String) (req : ChatRequest P) (st : ChatState B O.State)
      (resp : ChatResponse P) (cost : P.F64) (c : ResponseCache P)
      → is_streaming req ≡ false
      → st.router.semantic_cache ≡ none
      → st.router.cache ≡ some c
      → (response_get (O.instant st.router.outside) (O.key_for req) c).1 ≡ some resp
      → resp.cost_usd ≡ some cost
      → let (st', result) = answer B O s stages now_nanos (some name) req st in
        (st'.budgets
          ≡ (record_client_spend B st.budgets name cost (O.now_unix st.router.outside)).0)
        × (st'.router.usage ≡ st.router.usage)
        × (st'.router.attempts ≡ st.router.attempts)
        × ((trace : DispatchTrace) × (result ≡ ok (whole resp trace)))
  answer-hit_charged now_nanos name req st resp cost c whole_body alone has hit costs =
      let router = (dispatch_traced O s req now_nanos st.router).0 in
      let (answers, quiet, untried, uncounted) =
        dispatch_traced-hit O s req now_nanos st.router resp c whole_body alone has hit in
      let answered =
        answer-whole now_nanos (some name) req st router resp _ (ap (λ r. (router, r)) answers) in
      let (budgets, routers) = charge-parts name cost resp router st costs in
      (
        ap (λ p. p.0.budgets) answered
            ∙ budgets
            ∙ ap (λ w. (record_client_spend B st.budgets name cost (O.now_unix w)).0) quiet,
        ap (λ p. p.0.router.usage) answered
            ∙ ap (λ (r : RouterState P O.State). r.usage) routers
            ∙ uncounted,
        ap (λ p. p.0.router.attempts) answered
            ∙ ap (λ (r : RouterState P O.State). r.attempts) routers
            ∙ untried,
        (_, ap (λ p. p.1) answered),
      )
