-- ===== src/Dispatch/Embed.antt =====
-- `embeddings`: the fallback loop without the bookkeeping of a chat.
use rusty_provider.Prelude.{String, Option, none, some, List, [], ◌∷◌}
use rusty_provider.Prelude.Results.{Result, ok, err}
use rusty_provider.Platform.{Platform}
use rusty_provider.Core.Embeddings.{EmbeddingsRequest, EmbeddingsResponse, single}
use rusty_provider.Core.Errors.{RouterError}
use rusty_provider.Chain.Settings.{Candidate, RouterSettings}
use rusty_provider.Chain.Resolve.{resolve_chain}
use rusty_provider.Dispatch.{Outside, RouterState, retry_same_provider, log_attempt}
use rusty_provider.Dispatch.Passes.{Pass, served, fall_back, guarded, failed}

module _ {P : Platform} (O : Outside P) (s : RouterSettings P) where
  unfoldable pub call_embeddings :
      EmbeddingsRequest
      → Candidate
      → RouterState P O.State
      → Pass P (RouterState P O.State) (EmbeddingsResponse P)
  call_embeddings req c st =
      let (outside, result) =
        retry_same_provider O.sleep (λ w. O.embeddings w c.0 req c.1) st.outside in
      let st' = record st { outside = outside } in
      elim result [
        | ok resp ↦ served (log_attempt O s c "success" st') resp
        | err e ↦ failed O s c e st'
      ]

  unfoldable pub embeddings :
      EmbeddingsRequest
      → RouterState P O.State
      → RouterState P O.State × Result (EmbeddingsResponse P) (RouterError P)
  unfolding call_embeddings guarded fall_back
  embeddings req st = elim (resolve_chain s req.model none) [
    | err e ↦ (st, err e)
    | ok chain ↦
        let (st', result) =
          fall_back (guarded O s (call_embeddings req)) req.model chain 0 none st in
        (st', elim result [ ok (resp, n) ↦ ok resp | err e ↦ err e ])
  ]

  -- `embed_for_cache`: the first embedding, or none on any failure.
  unfoldable pub embed_for_cache :
      String → String → RouterState P O.State → RouterState P O.State × Option (List P.F32)
  unfolding embeddings
  embed_for_cache model words st =
      let (st', result) =
        embeddings
          (record {
            model = model;
            input = single words;
            encoding_format = none;
            dimensions = none;
          })
          st in
      (
        st',
        elim result [
          | err e ↦ none
          | ok resp ↦ elim resp.results [ [] ↦ none | d ∷ ds ↦ some d.embedding ]
        ],
      )
