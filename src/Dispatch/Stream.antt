-- ===== src/Dispatch/Stream.antt =====
-- `dispatch_stream_uncached`, `instrument_stream` and `dispatch_stream_traced`. A stream is the list of
-- its items; the router sees each when the client reads it.
use rusty_provider.Prelude.{
  ℕ, ◌+◌, ◌-◌, ◌/◌, ◌%◌, ◌^◌, String, none, some, List, [], ◌∷◌, if◌then◌else◌, ltb,
}
use rusty_provider.Prelude.Int.{ℤ}
use rusty_provider.Prelude.Results.{Result, ok, err}
use rusty_provider.Platform.{Platform}
use rusty_provider.Core.Types.{ChatRequest, Usage}
use rusty_provider.Core.Streaming.{ChatChunk}
use rusty_provider.Core.Errors.{RouterError}
use rusty_provider.Core.RateLimit.{as_secs_f64}
use rusty_provider.Caches.Fifo.{GenerationRecord, generation_insert}
use rusty_provider.Budget.FreeTiers.{record_tokens}
use rusty_provider.Chain.Settings.{Candidate, key_of, RouterSettings, ewma_record}
use rusty_provider.Chain.Resolve.{dispatch_strategy}
use rusty_provider.AutoRouting.{resolve_target_model, byok_key_for}
use rusty_provider.Dispatch.{
  Outside, RouterState, StreamItem, retry_same_provider, log_attempt, record_usage,
  record_throughput,
}
use rusty_provider.Dispatch.Passes.{Pass, served, fall_back, guarded, failed, record_uptime}
use rusty_provider.Dispatch.Loop.{req_to_send, plan_chain}

-- `DispatchTrace`; the latency is in milliseconds.
pub record DispatchTrace : Type 0 where
  pub strategy : String
  pub provider : String
  pub model : String
  pub latency_ms : ℕ
  pub fallback_attempts : ℕ

-- `Duration::as_millis`, of nanoseconds.
abbrev pub as_millis : ℕ → ℕ
as_millis ns = ns / 1_000_000 % 2 ^ 64

module _ {P : Platform} (O : Outside P) (s : RouterSettings P) where
  -- The accounting of a chunk that carries a usage with completion tokens.
  unfoldable pub account_chunk :
      Candidate
      → ChatChunk P
      → Usage
      → P.F64
      → ℤ
      → RouterState P O.State
      → RouterState P O.State × ChatChunk P
  account_chunk c chunk usage elapsed_secs now st =
      let (st, cost) = record_usage O s c usage (record_throughput O s c usage elapsed_secs st) in
      let generation : GenerationRecord P = record {
        id = chunk.id;
        model = chunk.model;
        created = chunk.created;
        prompt_tokens = usage.prompt_tokens;
        completion_tokens = usage.completion_tokens;
        total_tokens = usage.total_tokens;
        cost_usd = cost;
      } in
      (
        record st {
          stats = record st.stats {
            free_tier_usage =
                record_tokens s.free_tier_settings st.stats.free_tier_usage (key_of c)
                  ((usage.prompt_tokens + usage.completion_tokens) % 2 ^ 32) now;
          };
          generations = generation_insert generation st.generations;
        },
        record chunk { cost_usd = cost },
      )

  -- The closure of `instrument_stream`, for one item.
  unfoldable pub instrument_item :
      Candidate
      → (started_at : ℕ) → StreamItem P
      → RouterState P O.State
      → RouterState P O.State × StreamItem P
  unfolding account_chunk
  instrument_item c started_at i st = elim i.item [
    | err e ↦ (st, i)
    | ok chunk ↦ elim chunk.usage [
      | none ↦ (st, i)
      | some usage ↦
          let (st', chunk') =
            account_chunk c chunk usage (as_secs_f64 P (i.at - started_at)) i.now_unix st in
          if ltb 0 usage.completion_tokens then (st', record i { item = ok chunk' }) else (st, i)
    ]
  ]

  -- The stream as the client reads it to its end.
  unfoldable pub instrument_stream :
      Candidate
      → (started_at : ℕ) → List (StreamItem P)
      → RouterState P O.State
      → RouterState P O.State × List (StreamItem P)
  unfolding instrument_item
  instrument_stream c started_at [] st = (st, [])
  instrument_stream c started_at (i ∷ is) st =
      let (st', i') = instrument_item c started_at i st in
      let (st'', rest) = instrument_stream c started_at is st' in (st'', i' ∷ rest)

  -- What the loop returns: the stream, still unread, with its candidate and when the call started.
  pub record OpenStream : Type 0 where
    pub candidate : Candidate
    pub started_at : ℕ
    pub items : List (StreamItem P)

  module _ (req : ChatRequest P) where
    unfoldable pub open_stream :
        Candidate → RouterState P O.State → Pass P (RouterState P O.State) OpenStream
    open_stream c st =
        let (outside, result) =
          retry_same_provider O.sleep
            (λ w. O.chat_stream w c.0 (req_to_send O s req c st) c.1 (byok_key_for req c.0))
            st.outside in
        let st' = record st { outside = outside } in
        let elapsed_ms =
          P.mul (as_secs_f64 P (O.instant outside - O.instant st.outside)) (P.of_nat 1000) in
        elim result [
          | err e ↦ failed O s c e (record_uptime c (P.of_nat 0) st')
          | ok items ↦
              let timed = record st' {
                stats = record st'.stats {
                  latency = ewma_record P st'.stats.latency (key_of c) elapsed_ms;
                };
              } in
              served (log_attempt O s c "success" (record_uptime c (P.of_nat 1) timed))
                (record { candidate = c; started_at = O.instant st.outside; items = items })
        ]

    unfoldable pub dispatch_stream_uncached :
        (now_nanos : ℕ)
        → RouterState P O.State
        → RouterState P O.State × Result (OpenStream × ℕ) (RouterError P)
    unfolding plan_chain open_stream guarded fall_back
    dispatch_stream_uncached now_nanos st =
        let (st', planned) = plan_chain O s req now_nanos st in
        elim planned [
          | err e ↦ (st', err e)
          | ok chain ↦
              fall_back (guarded O s open_stream) (resolve_target_model s req).0 chain 0 none st'
        ]

    unfoldable pub dispatch_stream_traced :
        (now_nanos : ℕ)
        → RouterState P O.State
        → RouterState P O.State × Result (OpenStream × DispatchTrace) (RouterError P)
    unfolding dispatch_stream_uncached
    dispatch_stream_traced now_nanos st =
        let (st', result) = dispatch_stream_uncached now_nanos st in
        (
          st',
          elim result [
            | err e ↦ err e
            | ok (stream, attempts) ↦ ok (
              stream,
              record {
                strategy = dispatch_strategy s (resolve_target_model s req).0 req;
                provider = stream.candidate.0;
                model = stream.candidate.1;
                latency_ms = as_millis (O.instant st'.outside - O.instant st.outside);
                fallback_attempts = attempts;
              },
            )
          ],
        )
