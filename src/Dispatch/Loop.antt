-- ===== src/Dispatch/Loop.antt =====
-- The fallback loop of `dispatch_uncached`, and the planning of its chain.
pub mod Fallback
pub mod Attempts
use rusty_provider.Prelude.{
  ℕ, suc, ◌+◌, ◌-◌, String, Option, none, some, List, [], ◌∷◌, Map, Bool, true, false, unwrap_or,
  if◌then◌else◌, contains, string_eq,
}
use rusty_provider.Prelude.Results.{Result, ok, err, ◌>>=◌}
use rusty_provider.Platform.{Platform}
use rusty_provider.Core.Types.{ChatRequest, ChatResponse}
use rusty_provider.Core.Errors.{
  ProviderError, is_retryable, RouterError, invalid_model, provider_not_configured, provider,
}
use rusty_provider.Core.RateLimit.{as_secs_f64}
use rusty_provider.Chain.Settings.{Candidate, key_of, RouterSettings, ewma_record}
use rusty_provider.Chain.Resolve.{resolve_chain}
use rusty_provider.Chain.Preferences.{apply_preferences}
use rusty_provider.Chain.Filters.{filter_by_required_parameters, apply_request_budget}
use rusty_provider.Transforms.{
  maybe_apply_reasoning_replay, maybe_apply_middle_out, maybe_apply_rtk, cache_reasoning_for_replay,
}
use rusty_provider.AutoRouting.{resolve_target_model, effective_preferences, byok_key_for}
use rusty_provider.Dispatch.Passes.{Pass, served, fall_back, guarded, failed, record_uptime}
use rusty_provider.Dispatch.{
  Outside, RouterState, retry_same_provider, log_attempt, check_outbound_rate_limit, account_usage,
}

module _ {P : Platform} (O : Outside P) (s : RouterSettings P) (req : ChatRequest P) where
  -- The request as it is sent to a candidate: replay, compression, truncation, in this order.
  unfoldable pub req_to_send : Candidate → RouterState P O.State → ChatRequest P
  req_to_send c st =
      let replay_base = unwrap_or (maybe_apply_reasoning_replay req st.reasoning_replay) req in
      let base_req = unwrap_or (maybe_apply_rtk O.compress replay_base) replay_base in
      unwrap_or (maybe_apply_middle_out s base_req c) base_req

  unfoldable pub call_provider :
      Candidate → RouterState P O.State → O.State × Result (ChatResponse P) ProviderError
  unfolding req_to_send
  call_provider c st =
      retry_same_provider O.sleep (λ w. O.chat w c.0 (req_to_send c st) c.1 (byok_key_for req c.0))
        st.outside

  unfoldable pub on_success :
      Candidate
      → ChatResponse P
      → P.F64
      → RouterState P O.State
      → Pass P (RouterState P O.State) (ChatResponse P)
  unfolding record_uptime
  on_success c resp elapsed_secs st =
      let timed = record st {
        stats = record st.stats {
          latency = ewma_record P st.stats.latency (key_of c) (P.mul elapsed_secs (P.of_nat 1000));
        };
      } in
      let st = log_attempt O s c "success" (record_uptime c (P.of_nat 1) timed) in
      let counted : RouterState P O.State × ChatResponse P = elim resp.usage [
        | none ↦ (st, resp)
        | some usage ↦ account_usage O s c resp usage elapsed_secs st
      ] in
      served
        (record counted.0 {
          reasoning_replay = cache_reasoning_for_replay counted.0.reasoning_replay counted.1;
        })
        counted.1

  -- The arms of a failed call.
  unfoldable pub on_error :
      Candidate
      → ProviderError
      → RouterState P O.State
      → Pass P (RouterState P O.State) (ChatResponse P)
  unfolding record_uptime failed
  on_error c e st = failed O s c e (record_uptime c (P.of_nat 0) st)

  unfoldable pub attempt_call :
      Candidate → RouterState P O.State → Pass P (RouterState P O.State) (ChatResponse P)
  unfolding on_success on_error
  attempt_call c st =
      let (outside, result) = call_provider c st in
      let st' = record st { outside = outside } in
      let elapsed_secs = as_secs_f64 P (O.instant outside - O.instant st.outside) in
      elim result [ ok resp ↦ on_success c resp elapsed_secs st' | err e ↦ on_error c e st' ]

  -- The body of the loop.
  unfoldable pub try_candidate :
      Candidate → RouterState P O.State → Pass P (RouterState P O.State) (ChatResponse P)
  unfolding attempt_call guarded
  try_candidate c st = guarded O s attempt_call c st

  -- The loop.
  unfoldable pub try_chain :
      String
      → List Candidate
      → ℕ
      → Option (RouterError P)
      → RouterState P O.State
      → RouterState P O.State × Result (ChatResponse P × ℕ) (RouterError P)
  unfolding try_candidate fall_back
  try_chain target_model chain attempts last_err st =
      fall_back try_candidate target_model chain attempts last_err st

  -- The chain that the loop runs over; `now_nanos` seeds the shuffle of `sort: "random"`.
  unfoldable pub plan_chain :
      (now_nanos : ℕ)
      → RouterState P O.State
      → RouterState P O.State × Result (List Candidate) (RouterError P)
  plan_chain now_nanos st =
      let (target_model, was_auto_routed) = resolve_target_model s req in
      elim (resolve_chain s target_model req.models) [
        | err e ↦ (st, err e)
        | ok chain ↦
            let (stats, preferred) =
              apply_preferences s st.stats (O.now_unix st.outside) now_nanos target_model chain
                (effective_preferences req was_auto_routed) in
            (
              record st { stats = stats },
              (do
                chain ← preferred
                chain ← filter_by_required_parameters s target_model chain req
                apply_request_budget s target_model chain req),
            )
      ]
