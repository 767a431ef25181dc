-- ===== src/Server/Chat.antt =====
-- `chat_completions_dispatch` of `crates/server/src/routes.rs`: the stages before a dispatch, the
-- client's budget, the dispatch, and what the client is charged.
pub mod Laws
use rusty_provider.Prelude.{
  ℕ, String, Option, none, some, List, [], ◌∷◌, ◌++◌, Map, Bool, true, false, if◌then◌else◌,
  is_empty, is_some,
}
use rusty_provider.Prelude.Int.{ℤ}
use rusty_provider.Prelude.Results.{Result, ok, err}
use rusty_provider.Platform.{Platform}
use rusty_provider.Core.Types.{ChatRequest, ChatResponse, Usage, is_streaming}
use rusty_provider.Core.Errors.{RouterError}
use rusty_provider.Budget.Spend.{
  Persistence, BudgetState, BudgetEvent, ReadBack, ClientBudgetExceeded, check_client_budget,
  record_client_spend,
}
use rusty_provider.Chain.Settings.{RouterSettings}
use rusty_provider.Dispatch.{Outside, RouterState, StreamItem}
use rusty_provider.Dispatch.Stream.{
  DispatchTrace, OpenStream, instrument_stream, dispatch_stream_traced,
}
use rusty_provider.Dispatch.Cached.{dispatch_traced}
use rusty_provider.Requests.Presets.{PresetConfig, apply_preset}
use rusty_provider.Requests.WebSearch.{Search, apply_web_search}
use rusty_provider.Requests.Guardrails.{Regexes, Guardrail, apply_guardrails}
use rusty_provider.Requests.Moderation.{Moderator, apply_moderation}
use rusty_provider.Server.State.{HttpError, json_error, router_error_response}

-- The configured stages, and the texts of two errors.
pub record Stages (P : Platform) (X : Regexes) : Type 0 where
  pub presets : Map String (PresetConfig P)
  pub web_search : Option Search
  pub guardrails : List (Guardrail X)
  pub moderation : Option Moderator
  pub error_text : RouterError P → String
  pub exceeded_text : String → ClientBudgetExceeded P → String

module _ {P : Platform} (B : Persistence P) where
  -- The state that a chat request changes. `daily` logs the calls of the database's
  -- `record_daily_client_usage`, and `tasks` and `events` what the spending of clients starts and sends.
  pub record ChatState (S : Type 0) : Type 0 where
    pub router : RouterState P S
    pub budgets : BudgetState B
    pub daily : List (String × Usage × Option P.F64)
    pub events : List (BudgetEvent P)
    pub tasks : List (ReadBack B)

-- A response body with its trace: whole, or the items of a stream.
pub data ChatReply (P : Platform) : Type 0 where
  whole : ChatResponse P → DispatchTrace → ChatReply P
  streamed : List (StreamItem P) → DispatchTrace → ChatReply P

module _ {P : Platform} {X : Regexes} (stages : Stages P X) where
  unfoldable pub error_of : RouterError P → HttpError
  unfolding router_error_response
  error_of e = router_error_response (stages.error_text e) e

  -- The stages in their order.
  unfoldable pub prepare : ChatRequest P → Result (ChatRequest P) HttpError
  unfolding error_of
  prepare req =
      if is_empty req.messages
      then err (json_error 400 "\"messages\" must not be empty")
      else elim (apply_preset stages.presets req) [
        | err e ↦ err (error_of e)
        | ok req' ↦
            elim (apply_guardrails stages.guardrails (apply_web_search stages.web_search req').0) [
              | err e ↦ err (error_of e)
              | ok req'' ↦ elim (apply_moderation stages.moderation req'').1 [
                | some e ↦ err (error_of e)
                | none ↦ ok req''
              ]
            ]
      ]

module _ {P : Platform} (B : Persistence P) {S : Type 0} where
  -- `record_client_daily_usage` and `record_client_spend`, for what a response or a chunk carries.
  unfoldable pub charge :
      Option String → Option Usage → Option P.F64 → ℤ → ChatState B S → ChatState B S
  charge none usage cost now st = st
  charge (some name) usage cost now st =
      let counted : ChatState B S = elim usage [
        | none ↦ st
        | some u ↦
            if is_some st.budgets.persistence
            then record st { daily = st.daily ++ (name, u, cost) ∷ [] }
            else st
      ] in
      elim cost [
        | none ↦ counted
        | some c ↦
            let (budgets, events, task) = record_client_spend B counted.budgets name c now in
            record counted {
              budgets = budgets;
              events = counted.events ++ events;
              tasks = elim task [ none ↦ counted.tasks | some t ↦ counted.tasks ++ t ∷ [] ];
            }
      ]

  -- The chunks of a stream that the client reads to its end.
  unfoldable pub charge_items : Option String → List (StreamItem P) → ChatState B S → ChatState B S
  unfolding charge
  charge_items client [] st = st
  charge_items client (i ∷ is) st = elim i.item [
    | err e ↦ charge_items client is st
    | ok chunk ↦ charge_items client is (charge client chunk.usage chunk.cost_usd i.now_unix st)
  ]

module _ {P : Platform} {X : Regexes} (B : Persistence P) (O : Outside P) (s : RouterSettings P)
    (stages : Stages P X) where
  -- None lets the client through.
  unfoldable pub check_budget :
      Option String → ChatState B O.State → ChatState B O.State × Option HttpError
  check_budget none st = (st, none)
  check_budget (some name) st =
      let (budgets, result) =
        check_client_budget B st.budgets name (O.now_unix st.router.outside) in
      (
        record st { budgets = budgets },
        elim result [
          | ok u ↦ none
          | err exceeded ↦ some (json_error 402 (stages.exceeded_text name exceeded))
        ],
      )

  -- The dispatch of a request, and the charge for its response.
  unfoldable pub answer :
      (now_nanos : ℕ)
      → Option String
      → ChatRequest P
      → ChatState B O.State
      → ChatState B O.State × Result (ChatReply P) HttpError
  unfolding charge
  answer now_nanos client req st =
      let (router, result) = dispatch_traced O s req now_nanos st.router in
      elim result [
        | err e ↦ (record st { router = router }, err (error_of stages e))
        | ok (resp, trace) ↦ (
          charge B client resp.usage resp.cost_usd (O.now_unix router.outside)
              (record st { router = router }),
          ok (whole resp trace),
        )
      ]

  unfoldable pub answer_stream :
      (now_nanos : ℕ)
      → Option String
      → ChatRequest P
      → ChatState B O.State
      → ChatState B O.State × Result (ChatReply P) HttpError
  unfolding charge_items
  answer_stream now_nanos client req st =
      let (router, result) = dispatch_stream_traced O s req now_nanos st.router in
      elim result [
        | err e ↦ (record st { router = router }, err (error_of stages e))
        | ok (stream, trace) ↦
            let (router', items) =
              instrument_stream O s stream.candidate stream.started_at stream.items router in
            (
              charge_items B client items (record st { router = router' }),
              ok (streamed items trace),
            )
      ]

  unfoldable pub chat_completions_dispatch :
      (now_nanos : ℕ)
      → Option String
      → ChatRequest P
      → ChatState B O.State
      → ChatState B O.State × Result (ChatReply P) HttpError
  unfolding prepare check_budget answer answer_stream
  chat_completions_dispatch now_nanos client req st = elim (prepare stages req) [
    | err e ↦ (st, err e)
    | ok req' ↦
        let (st', exceeded) = check_budget client st in
        elim exceeded [
          | some e ↦ (st', err e)
          | none ↦
              if is_streaming req'
              then answer_stream now_nanos client req' st'
              else answer now_nanos client req' st'
        ]
  ]
