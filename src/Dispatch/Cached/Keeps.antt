-- ===== src/Dispatch/Cached/Keeps.antt =====
-- A dispatch that no cache answers leaves both response caches as they were.
use rusty_provider.Prelude.{
  ℕ, String, none, List, [], ◌∷◌, ◌≡◌, refl, ◌∙◌, arith, inl, inr, Option-cases,
}
use rusty_provider.Prelude.Results.{Result-cases}
use rusty_provider.Platform.{Platform}
use rusty_provider.Core.Types.{ChatRequest, ChatResponse, Usage}
use rusty_provider.Chain.Settings.{Candidate, RouterSettings, FusionConfig}
use rusty_provider.AutoRouting.{resolve_target_model}
use rusty_provider.Dispatch.{
  Outside, RouterState, account_usage, record_usage, record_throughput, check_outbound_rate_limit,
  log_attempt,
}
use rusty_provider.Dispatch.Passes.{record_uptime, failed}
use rusty_provider.Dispatch.Passes.Attempts.{pass_state}
use rusty_provider.Dispatch.Passes.Keeps.{caches, fall_back-keeps, caches-guarded}
use rusty_provider.Dispatch.Loop.{
  on_success, on_error, attempt_call, try_candidate, try_chain, plan_chain,
}
use rusty_provider.Dispatch.Judge.{Reply, Totals, no_totals, find_tool_call}
use rusty_provider.Dispatch.Fusion.{
  record_contribution, record_reply, record_replies, join_panel, start_panel, panel_replies,
  finish_fusion, ask_judge, synthesize, settle, dispatch_fusion,
}
use rusty_provider.Dispatch.Cached.{dispatch_chain, dispatch_uncached, fusion_taken}

module _ {P : Platform} (O : Outside P) (s : RouterSettings P) (req : ChatRequest P) where
  caches-account_usage :
      (c : Candidate) (resp : ChatResponse P) (usage : Usage) (elapsed_secs : P.F64)
      (st : RouterState P O.State)
      → caches (account_usage O s c resp usage elapsed_secs st).0 ≡ caches st
  unfolding account_usage record_usage record_throughput
  caches-account_usage c resp usage elapsed_secs st = ground arith

  caches-attempt_call :
      (c : Candidate) (st : RouterState P O.State)
      → caches (pass_state (attempt_call O s req c st)) ≡ caches st
  unfolding attempt_call on_success on_error record_uptime failed log_attempt
  caches-attempt_call c st = grind (arith, caches-account_usage)

  caches-try_candidate :
      (c : Candidate) (st : RouterState P O.State)
      → caches (pass_state (try_candidate O s req c st)) ≡ caches st
  unfolding try_candidate
  caches-try_candidate = caches-guarded O s (attempt_call O s req) caches-attempt_call

  caches-try_chain :
      (target_model : String) (chain : List Candidate) (st : RouterState P O.State)
      → caches (try_chain O s req target_model chain 0 none st).0 ≡ caches st
  unfolding try_chain
  caches-try_chain target_model chain st =
      fall_back-keeps (try_candidate O s req) caches caches-try_candidate target_model chain 0 none
        st

  caches-plan_chain :
      (now_nanos : ℕ) (st : RouterState P O.State)
      → caches (plan_chain O s req now_nanos st).0 ≡ caches st
  unfolding plan_chain
  caches-plan_chain now_nanos st = ground arith

  caches-record_reply :
      (p : RouterState P O.State × Totals P) (r : Reply P)
      → caches (record_reply O s p r).0 ≡ caches p.0
  unfolding record_reply record_contribution record_usage log_attempt
  caches-record_reply p r = ground arith

  caches-record_replies :
      (p : RouterState P O.State × Totals P) (rs : List (Reply P))
      → caches (record_replies O s p rs).0 ≡ caches p.0
  unfolding record_replies
  caches-record_replies p [] = refl
  caches-record_replies p (r ∷ rs) =
      caches-record_replies (record_reply O s p r) rs ∙ caches-record_reply p r

  module _ (fusion : FusionConfig) where
    caches-start_panel :
        (panel : List Candidate) (st : RouterState P O.State)
        → caches (start_panel O s req fusion panel st).0 ≡ caches st
    unfolding start_panel join_panel check_outbound_rate_limit log_attempt
    caches-start_panel [] st = refl
    caches-start_panel (c ∷ cs) st = ground (arith, caches-start_panel cs (join_panel O s c st).0)

    caches-ask_judge :
        (judge : Candidate) (rs : List (Reply P)) (p : RouterState P O.State × Totals P)
        → caches (ask_judge O s req fusion judge rs p).0 ≡ caches p.0
    unfolding ask_judge finish_fusion record_reply record_contribution record_usage log_attempt
    caches-ask_judge judge rs p = ground arith

    caches-synthesize :
        (rs : List (Reply P)) (st : RouterState P O.State)
        → caches (synthesize O s req fusion rs st).0 ≡ caches st
    unfolding synthesize
    caches-synthesize rs st =
        grind (arith, caches-ask_judge, caches-record_replies (st, no_totals) rs)

    caches-settle :
        (rs : List (Reply P)) (st : RouterState P O.State)
        → caches (settle O s req fusion rs st).0 ≡ caches st
    unfolding settle log_attempt
    caches-settle [] st = refl
    caches-settle (r ∷ rs) st = elim (Option-cases (find_tool_call (r ∷ rs))) [
      | inl no_tools ↦ ground (arith, caches-synthesize (r ∷ rs) st)
      | inr (q, found) ↦ ground arith
    ]

    caches-dispatch_fusion :
        (panel : List Candidate) (st : RouterState P O.State)
        → caches (dispatch_fusion O s req fusion panel st).0 ≡ caches st
    unfolding dispatch_fusion panel_replies
    caches-dispatch_fusion panel st =
        let (st', replies) = panel_replies O s req fusion panel st in
        caches-settle replies st' ∙ caches-start_panel panel st

  caches-dispatch_chain :
      (chain : List Candidate) (st : RouterState P O.State)
      → caches (dispatch_chain O s req chain st).0 ≡ caches st
  unfolding dispatch_chain
  caches-dispatch_chain chain st = elim (Option-cases (fusion_taken O s req)) [
    | inl none_taken ↦ ground (arith, caches-try_chain (resolve_target_model s req).0 chain st)
    | inr (fusion, taken) ↦ ground (arith, caches-dispatch_fusion fusion chain st)
  ]

  pub caches-dispatch_uncached :
      (now_nanos : ℕ) (st : RouterState P O.State)
      → caches (dispatch_uncached O s req now_nanos st).0 ≡ caches st
  unfolding dispatch_uncached
  caches-dispatch_uncached now_nanos st = elim (Result-cases (plan_chain O s req now_nanos st).1) [
    | inl (chain, plans) ↦ ground (
      arith,
      caches-plan_chain now_nanos st,
      caches-dispatch_chain chain (plan_chain O s req now_nanos st).0,
    )
    | inr (e, fails) ↦ ground (arith, caches-plan_chain now_nanos st)
  ]
