-- ===== src/Dispatch/Cached/Laws.antt =====
-- What `dispatch_strategy` says of a dispatch, and what a second dispatch of a cached request does.
use rusty_provider.Prelude.{
  ◌==◌, ℕ, ◌-◌, ◌≤◌, ◌%◌, ◌^◌, length, String, none, some, List, false, lookup, nat_eq, string_eq,
  ◌≡◌, ◌≢◌, ◌⊎◌, refl, sym, ap, ◌∙◌, arith, inl, inr, Option-cases, lookup-insert_self,
}
use rusty_provider.Prelude.Results.{Result, ok, err, Result-cases}
use rusty_provider.Platform.{Platform}
use rusty_provider.Core.Types.{ChatRequest, ChatResponse, is_streaming}
use rusty_provider.Core.Errors.{RouterError}
use rusty_provider.Caches.Fifo.{put}
use rusty_provider.Caches.Response.{ResponseCache, response_get, response_insert}
use rusty_provider.Caches.Response.Laws.{response_get-eq-some_iff}
use rusty_provider.Chain.Settings.{Candidate, RouterSettings, FusionConfig}
use rusty_provider.Chain.Resolve.{dispatch_strategy}
use rusty_provider.AutoRouting.{resolve_target_model}
use rusty_provider.Dispatch.{Outside, RouterState}
use rusty_provider.Dispatch.Loop.{try_chain}
use rusty_provider.Dispatch.Fusion.{dispatch_fusion}
use rusty_provider.Dispatch.Stream.{DispatchTrace}
use rusty_provider.Dispatch.Cached.{
  cache_get, cache_insert, cache_key_for, fusion_taken, dispatch_chain, dispatch_uncached,
  dispatch_miss, answer_lookup, dispatch_traced, build_trace,
}
use rusty_provider.Dispatch.Cached.Keeps.{caches-dispatch_uncached}

not_fusion : (word : String) → (word == "fusion") ≡ false → word ≢ "fusion"
not_fusion word h same =
    let fails : ◌==◌ {Key = String} "fusion" "fusion" ≡ false =
      ap (λ w. w == "fusion") (sym same) ∙ h in
    absurd (ground (arith, fails))

module _ {P : Platform} (O : Outside P) (s : RouterSettings P) (req : ChatRequest P) where
  -- The strategy as `dispatch_strategy` computes it for a request.
  abbrev pub strategy_of : String
  strategy_of = dispatch_strategy s (resolve_target_model s req).0 req

  fusion_taken-strategy :
      (fusion : FusionConfig) → fusion_taken O s req ≡ some fusion → strategy_of ≡ "fusion"
  unfolding fusion_taken dispatch_strategy
  fusion_taken-strategy fusion h = ground (arith, h)

  fusion_taken-none : fusion_taken O s req ≡ none → strategy_of ≢ "fusion"
  unfolding fusion_taken dispatch_strategy
  fusion_taken-none h = ground (arith, h, not_fusion "fallback" refl, not_fusion "direct" refl)

  -- The result of a panel, with the number of its members, in 32 bits, as the count of a response.
  abbrev pub IsPanelResult :
      ℕ
      → Result (ChatResponse P) (RouterError P)
      → Result (ChatResponse P × ℕ) (RouterError P)
      → Type 0
  IsPanelResult size (ok resp) result = result ≡ ok (resp, size % 2 ^ 32)
  IsPanelResult size (err e) result = result ≡ err e

  dispatch_chain-fusion :
      (fusion : FusionConfig) (chain : List Candidate) (st : RouterState P O.State)
      → fusion_taken O s req ≡ some fusion
      → let panel = dispatch_fusion O s req fusion chain st in
        let after = dispatch_chain O s req chain st in
        (after.0 ≡ panel.0) × IsPanelResult (length chain) panel.1 after.1
  unfolding dispatch_chain
  dispatch_chain-fusion fusion chain st taken =
      elim (Result-cases (dispatch_fusion O s req fusion chain st).1) [
        | inl (resp, answers) ↦ (ground (arith, taken), rw answers (ground (arith, taken, answers)))
        | inr (e, fails) ↦ (ground (arith, taken), rw fails (ground (arith, taken, fails)))
      ]

  -- `dispatch_strategy` is "fusion" exactly when the dispatch of a planned chain is that of a fusion
  -- route, with the chain as its panel and, for a response, the chain's length in 32 bits as the
  -- number of candidates tried; otherwise the dispatch is the fallback loop over the chain.
  pub dispatch_strategy-cases :
      (chain : List Candidate) (st : RouterState P O.State)
      → let after = dispatch_chain O s req chain st in
        ((strategy_of ≡ "fusion")
          × ((fusion : FusionConfig) × (lookup (resolve_target_model s req).0 s.fusion_routes
                ≡ some fusion)
              × (after.0 ≡ (dispatch_fusion O s req fusion chain st).0)
              × IsPanelResult (length chain) (dispatch_fusion O s req fusion chain st).1 after.1))
        ⊎ ((strategy_of ≢ "fusion")
            × (after ≡ try_chain O s req (resolve_target_model s req).0 chain 0 none st))
  unfolding dispatch_chain fusion_taken
  dispatch_strategy-cases chain st = elim (Option-cases (fusion_taken O s req)) [
    | inl nothing ↦ inr (fusion_taken-none nothing, ground (arith, nothing))
    | inr (fusion, taken) ↦
        let (state, result) = dispatch_chain-fusion fusion chain st taken in
        inl (fusion_taken-strategy fusion taken, (fusion, ground (arith, taken), state, result))
  ]

module _ {P : Platform} (O : Outside P) (s : RouterSettings P) (req : ChatRequest P) where
  -- The cache after a dispatch that missed it: the response is stored under the request's key, at the
  -- instant of its return.
  miss-stores :
      (now_nanos started_at : ℕ) (st st' : RouterState P O.State) (resp : ChatResponse P)
      (trace : DispatchTrace) (c : ResponseCache P)
      → st.cache ≡ some c
      → dispatch_miss O s req (cache_insert O s (O.key_for req)) now_nanos started_at st
        ≡ (st', ok (resp, trace))
      → st'.cache ≡ some (response_insert (O.instant st'.outside) (O.key_for req) resp c)
  unfolding dispatch_miss cache_insert
  miss-stores now_nanos started_at st st' resp trace c has h =
      elim (Result-cases (dispatch_uncached O s req now_nanos st).1) [
        | inl ((resp', n), serves) ↦
            ground (arith, h, has, serves, caches-dispatch_uncached O s req now_nanos st)
        | inr (e, fails) ↦ absurd (ground (arith, h, fails))
      ]

  -- A lookup within the time to live finds what was just stored.
  get-response_insert :
      (now later key : ℕ) (resp : ChatResponse P) (c : ResponseCache P)
      → later - now ≤ c.ttl
      → (response_get later key (response_insert now key resp c)).1 ≡ some resp
  unfolding response_insert put
  get-response_insert now later key resp c fresh =
      (response_get-eq-some_iff later key (response_insert now key resp c) resp).1
        (now, lookup-insert_self key (now, resp) _, fresh)

  ttl-response_get : (now key : ℕ) (c : ResponseCache P) → (response_get now key c).0.ttl ≡ c.ttl
  unfolding response_get
  ttl-response_get now key c = ground arith

  -- The first of two dispatches, which misses.
  dispatch_traced-miss :
      (now_nanos : ℕ) (st st' : RouterState P O.State) (resp : ChatResponse P)
      (trace : DispatchTrace) (c : ResponseCache P)
      → is_streaming req ≡ false
      → st.semantic_cache ≡ none
      → st.cache ≡ some c
      → (response_get (O.instant st.outside) (O.key_for req) c).1 ≡ none
      → dispatch_traced O s req now_nanos st ≡ (st', ok (resp, trace))
      → st'.cache
        ≡ some (
            response_insert
              (O.instant st'.outside)
              (O.key_for req)
              resp
              (response_get (O.instant st.outside) (O.key_for req) c).0)
  unfolding dispatch_traced cache_key_for cache_get answer_lookup
  dispatch_traced-miss now_nanos st st' resp trace c whole alone has miss h =
      let looked = cache_get O s (O.key_for req) st in
      let missed : dispatch_miss O s req (cache_insert O s (O.key_for req)) now_nanos
            (O.instant st.outside) looked.0
          ≡ (st', ok (resp, trace)) =
        ground (arith, h, whole, alone, has, miss) in
      miss-stores now_nanos (O.instant st.outside) looked.0 st' resp trace
        (response_get (O.instant st.outside) (O.key_for req) c).0 (ground (arith, has)) missed

  -- The second, which hits.
  pub dispatch_traced-hit :
      (now_nanos : ℕ) (st : RouterState P O.State) (resp : ChatResponse P) (c : ResponseCache P)
      → is_streaming req ≡ false
      → st.semantic_cache ≡ none
      → st.cache ≡ some c
      → (response_get (O.instant st.outside) (O.key_for req) c).1 ≡ some resp
      → ((dispatch_traced O s req now_nanos st).1
          ≡ ok (
            resp,
            build_trace (strategy_of O s req) resp 0 (O.instant st.outside - O.instant st.outside),
          ))
        × ((dispatch_traced O s req now_nanos st).0.outside ≡ st.outside)
        × ((dispatch_traced O s req now_nanos st).0.attempts ≡ st.attempts)
        × ((dispatch_traced O s req now_nanos st).0.usage ≡ st.usage)
  unfolding dispatch_traced cache_key_for cache_get answer_lookup
  dispatch_traced-hit now_nanos st resp c whole alone has hit =
      ground (arith, whole, alone, has, hit)

  -- With the exact cache active, a request that is not streaming and not yet cached, and is answered,
  -- is answered with the same response when it is dispatched again within the time to live, if the
  -- cache is then as it was left. The second dispatch makes no call and tries no candidate.
  pub dispatch_traced-again :
      (now_nanos later_nanos : ℕ) (st st' st2 : RouterState P O.State) (resp : ChatResponse P)
      (trace : DispatchTrace) (c : ResponseCache P)
      → is_streaming req ≡ false
      → st.semantic_cache ≡ none
      → st.cache ≡ some c
      → (response_get (O.instant st.outside) (O.key_for req) c).1 ≡ none
      → dispatch_traced O s req now_nanos st ≡ (st', ok (resp, trace))
      → st2.cache ≡ st'.cache
      → st2.semantic_cache ≡ none
      → O.instant st2.outside - O.instant st'.outside ≤ c.ttl
      → (again : DispatchTrace) × ((dispatch_traced O s req later_nanos st2).1 ≡ ok (resp, again))
        × (again.fallback_attempts ≡ 0)
        × ((dispatch_traced O s req later_nanos st2).0.outside ≡ st2.outside)
        × ((dispatch_traced O s req later_nanos st2).0.attempts ≡ st2.attempts)
  unfolding build_trace
  dispatch_traced-again now_nanos later_nanos st st' st2 resp trace c whole alone has miss h same
        alone2 fresh =
      let key = O.key_for req in
      let looked = (response_get (O.instant st.outside) key c).0 in
      let stored =
        same ∙ dispatch_traced-miss now_nanos st st' resp trace c whole alone has miss h in
      let (answers, quiet, untried, uncounted) =
        dispatch_traced-hit later_nanos st2 resp
          (response_insert (O.instant st'.outside) key resp looked) whole alone2 stored
          (get-response_insert (O.instant st'.outside) (O.instant st2.outside) key resp looked
            (ground (arith, fresh, ttl-response_get (O.instant st.outside) key c))) in
      (_, answers, refl, quiet, untried)
