-- ===== src/Dispatch/Cached.antt =====
-- `dispatch_uncached`, and `dispatch_traced` around it: the lookup in the active cache, the dispatch
-- of a miss, and the insertion of its response.
pub mod Keeps
pub mod Laws
mod Tests
use Prim.Native.String as Str
use rusty_provider.Prelude.{
  ℕ, ◌-◌, String, Option, none, some, List, [], ◌∷◌, ◌++◌, Bool, unwrap_or, lookup, string_eq,
  if◌then◌else◌, is_empty, is_some, not, ◌&&◌, length, map,
}
use rusty_provider.Prelude.Results.{Result, ok, err}
use rusty_provider.Prelude.Texts.{join_lines}
use rusty_provider.Platform.{Platform}
use rusty_provider.Core.Types.{
  Role, system, user, assistant, tool, ChatMessage, ChatRequest, ChatResponse, is_streaming,
  as_plain_text,
}
use rusty_provider.Core.Errors.{RouterError}
use rusty_provider.Caches.Response.{ResponseCache, response_get, response_insert}
use rusty_provider.Caches.Semantic.{SemanticCache, semantic_get, semantic_insert}
use rusty_provider.Chain.Settings.{Candidate, RouterSettings, FusionConfig}
use rusty_provider.Chain.Resolve.{dispatch_strategy, split_once}
use rusty_provider.AutoRouting.{resolve_target_model, u32}
use rusty_provider.Dispatch.{Outside, RouterState}
use rusty_provider.Dispatch.Loop.{plan_chain, try_chain}
use rusty_provider.Dispatch.Fusion.{dispatch_fusion}
use rusty_provider.Dispatch.Stream.{DispatchTrace, as_millis}
use rusty_provider.Dispatch.Embed.{embed_for_cache}

-- `format!("{:?}", role).to_lowercase()`.
unfoldable pub role_name : Role → String
role_name system = "system"
role_name user = "user"
role_name assistant = "assistant"
role_name tool = "tool"

unfoldable pub message_line : ChatMessage → String
unfolding role_name
message_line m =
    let words : String = elim m.content [ none ↦ "" | some c ↦ as_plain_text c ] in
    Str.◌++◌ (role_name m.role) (Str.◌++◌ ": " words)

module _ {P : Platform} where
  unfoldable pub request_text_for_embedding : ChatRequest P → String
  unfolding message_line join_lines
  request_text_for_embedding req = join_lines (map message_line req.messages)

  unfoldable pub build_trace : String → ChatResponse P → ℕ → (elapsed : ℕ) → DispatchTrace
  build_trace strategy resp fallback_attempts elapsed =
      let place = unwrap_or (split_once resp.model) ("", resp.model) in
      record {
        strategy = strategy;
        provider = place.0;
        model = place.1;
        latency_ms = as_millis elapsed;
        fallback_attempts = fallback_attempts;
      }

module _ {P : Platform} (O : Outside P) (s : RouterSettings P) where
  unfoldable pub cache_lookup_label : Option (ChatResponse P) → String
  cache_lookup_label resp = if is_some resp then "hit" else "miss"

  unfoldable pub cache_get :
      ℕ → RouterState P O.State → RouterState P O.State × Option (ChatResponse P)
  unfolding cache_lookup_label
  cache_get key st = elim st.cache [
    | none ↦ (st, none)
    | some cache ↦
        let (cache', resp) = response_get (O.instant st.outside) key cache in
        (
          record st {
            cache = some cache';
            cache_lookups = st.cache_lookups ++ cache_lookup_label resp ∷ [];
          },
          resp,
        )
  ]

  unfoldable pub cache_insert : ℕ → ChatResponse P → RouterState P O.State → RouterState P O.State
  cache_insert key resp st = record st {
    cache = elim st.cache [
      | none ↦ none
      | some cache ↦ some (response_insert (O.instant st.outside) key resp cache)
    ];
  }

  module _ (req : ChatRequest P) where
    unfoldable pub cache_key_for : RouterState P O.State → Option ℕ
    cache_key_for st =
        if is_streaming req
        then none
        else elim st.cache [ none ↦ none | some cache ↦ some (O.key_for req) ]

    -- `SemanticCache::scope_key_for`.
    unfoldable pub scope_key_for : ℕ
    scope_key_for = O.key_for (record req { messages = [] })

    -- The embedding of the request's text, with the embedding model that is configured.
    unfoldable pub embed_request :
        RouterState P O.State → RouterState P O.State × Option (List P.F32)
    embed_request st = elim s.embedding_model [
      | none ↦ (st, none)
      | some model ↦ embed_for_cache O s model (request_text_for_embedding req) st
    ]

    unfoldable pub semantic_cache_get :
        RouterState P O.State → RouterState P O.State × Option (ChatResponse P)
    unfolding embed_request scope_key_for cache_lookup_label
    semantic_cache_get st =
        let (st', embedding) = embed_request st in
        elim embedding [
          | none ↦ (st', none)
          | some query ↦ elim st'.semantic_cache [
            | none ↦ (st', none)
            | some cache ↦
                let (cache', resp) =
                  semantic_get (O.instant st'.outside) scope_key_for query cache in
                (
                  record st' {
                    semantic_cache = some cache';
                    cache_lookups = st'.cache_lookups ++ cache_lookup_label resp ∷ [];
                  },
                  resp,
                )
          ]
        ]

    unfoldable pub semantic_cache_insert :
        ChatResponse P → RouterState P O.State → RouterState P O.State
    unfolding embed_request scope_key_for
    semantic_cache_insert resp st =
        let (st', embedding) = embed_request st in
        elim embedding [
          | none ↦ st'
          | some vector ↦ elim st'.semantic_cache [
            | none ↦ st'
            | some cache ↦ record st' {
              semantic_cache =
                  some (semantic_insert (O.instant st'.outside) scope_key_for vector resp cache);
            }
          ]
        ]

    -- The fusion route of the target model, if it is taken.
    unfoldable pub fusion_taken : Option FusionConfig
    fusion_taken =
        if is_empty (unwrap_or req.models []) && not (is_some req.tools)
        then lookup (resolve_target_model s req).0 s.fusion_routes
        else none

    -- What follows the planning: a panel, or the loop.
    unfoldable pub dispatch_chain :
        List Candidate
        → RouterState P O.State
        → RouterState P O.State × Result (ChatResponse P × ℕ) (RouterError P)
    unfolding fusion_taken
    dispatch_chain chain st = elim fusion_taken [
      | some fusion ↦
          let (st', result) = dispatch_fusion O s req fusion chain st in
          (st', elim result [ err e ↦ err e | ok resp ↦ ok (resp, u32 (length chain)) ])
      | none ↦ try_chain O s req (resolve_target_model s req).0 chain 0 none st
    ]

    unfoldable pub dispatch_uncached :
        (now_nanos : ℕ)
        → RouterState P O.State
        → RouterState P O.State × Result (ChatResponse P × ℕ) (RouterError P)
    unfolding dispatch_chain
    dispatch_uncached now_nanos st =
        let (st', planned) = plan_chain O s req now_nanos st in
        elim planned [ err e ↦ (st', err e) | ok chain ↦ dispatch_chain chain st' ]

    -- A miss: the dispatch, and what is done with its response.
    unfoldable pub dispatch_miss :
        (ChatResponse P → RouterState P O.State → RouterState P O.State)
        → (now_nanos started_at : ℕ) → RouterState P O.State
        → RouterState P O.State × Result (ChatResponse P × DispatchTrace) (RouterError P)
    unfolding dispatch_uncached
    dispatch_miss store now_nanos started_at st =
        let strategy = dispatch_strategy s (resolve_target_model s req).0 req in
        let (st', result) = dispatch_uncached now_nanos st in
        elim result [
          | err e ↦ (st', err e)
          | ok (resp, attempts) ↦
              let st'' = store resp st' in
              (
                st'',
                ok (resp, build_trace strategy resp attempts (O.instant st''.outside - started_at)),
              )
        ]

    -- The answer to a lookup: its response, or a dispatch.
    unfoldable pub answer_lookup :
        (ChatResponse P → RouterState P O.State → RouterState P O.State)
        → (now_nanos started_at : ℕ) → RouterState P O.State × Option (ChatResponse P)
        → RouterState P O.State × Result (ChatResponse P × DispatchTrace) (RouterError P)
    unfolding dispatch_miss
    answer_lookup store now_nanos started_at (st, found) =
        let strategy = dispatch_strategy s (resolve_target_model s req).0 req in
        elim found [
          | some resp ↦
              (st, ok (resp, build_trace strategy resp 0 (O.instant st.outside - started_at)))
          | none ↦ dispatch_miss store now_nanos started_at st
        ]

    unfoldable pub dispatch_traced :
        (now_nanos : ℕ)
        → RouterState P O.State
        → RouterState P O.State × Result (ChatResponse P × DispatchTrace) (RouterError P)
    unfolding answer_lookup semantic_cache_get cache_get cache_key_for
    dispatch_traced now_nanos st =
        let started_at = O.instant st.outside in
        if not (is_streaming req) && is_some st.semantic_cache
        then answer_lookup semantic_cache_insert now_nanos started_at (semantic_cache_get st)
        else elim (cache_key_for st) [
          | none ↦ dispatch_miss (λ resp st. st) now_nanos started_at st
          | some key ↦ answer_lookup (cache_insert key) now_nanos started_at (cache_get key st)
        ]

    unfoldable pub dispatch :
        (now_nanos : ℕ)
        → RouterState P O.State
        → RouterState P O.State × Result (ChatResponse P) (RouterError P)
    unfolding dispatch_traced
    dispatch now_nanos st =
        let (st', result) = dispatch_traced now_nanos st in
        (st', elim result [ err e ↦ err e | ok (resp, trace) ↦ ok resp ])
