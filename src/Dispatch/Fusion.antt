-- ===== src/Dispatch/Fusion.antt =====
-- `strategy = "fusion"`: the panel and the judge of `dispatch_fusion`.
pub mod Books
pub mod Answers
mod Tests
use Prim.Native.String as Str
use rusty_provider.Prelude.{
  ℕ, ◌+◌, ◌-◌, ◌%◌, ◌^◌, String, Option, none, some, List, [], ◌∷◌, ◌++◌, Bool, true, false,
  unwrap_or, if◌then◌else◌, contains, string_eq, is_some, any, map,
}
use rusty_provider.Prelude.Results.{Result, ok, err}
use rusty_provider.Platform.{Platform}
use rusty_provider.Core.Types.{
  ChatRequest, ChatResponse, Choice, Usage, MessageContent, user, message_of, as_plain_text,
}
use rusty_provider.Core.Errors.{
  ProviderError, upstream, RouterError, invalid_model, provider_not_configured, provider,
}
use rusty_provider.Caches.Fifo.{GenerationRecord, generation_insert}
use rusty_provider.Chain.Settings.{Candidate, RouterSettings, FusionConfig}
use rusty_provider.Chain.Resolve.{split_once}
use rusty_provider.AutoRouting.{byok_key_for, u32}
use rusty_provider.Dispatch.{
  Outside, RouterState, retry_same_provider, log_attempt, record_usage, check_outbound_rate_limit,
}
use rusty_provider.Prelude.Texts.{decimal}
use rusty_provider.Dispatch.Judge.{
  build_judge_request, sum_usage, Reply, panel_failed, find_tool_call, Totals, flatten, no_totals,
  add_totals,
}

module _ {P : Platform} (O : Outside P) (s : RouterSettings P) where
  unfoldable pub record_contribution :
      Candidate → Usage → RouterState P O.State × Totals P → RouterState P O.State × Totals P
  unfolding add_totals
  record_contribution c usage (st, t) =
      let (st', cost) = record_usage O s c usage st in (st', add_totals usage cost t)

  -- A response that is logged, and counted if it carries a usage.
  unfoldable pub record_reply :
      RouterState P O.State × Totals P → Reply P → RouterState P O.State × Totals P
  unfolding record_contribution
  record_reply (st, t) (c, resp) =
      let logged = log_attempt O s c "success" st in
      elim resp.usage [ none ↦ (logged, t) | some usage ↦ record_contribution c usage (logged, t) ]

  unfoldable pub record_replies :
      RouterState P O.State × Totals P → List (Reply P) → RouterState P O.State × Totals P
  unfolding record_reply
  record_replies p [] = p
  record_replies p (r ∷ replies) = record_replies (record_reply p r) replies

  -- Whether a candidate's call is started: it is within its rate, and configured.
  unfoldable pub join_panel : Candidate → RouterState P O.State → RouterState P O.State × Bool
  join_panel c st =
      let (st', limited) = check_outbound_rate_limit O s c.0 st in
      elim limited [
        | some e ↦ (log_attempt O s c "rate_limited" st', false)
        | none ↦
            if contains s.providers c.0
            then (st', true)
            else (log_attempt O s c "not_configured" st', false)
      ]

  module _ (req : ChatRequest P) (fusion : FusionConfig) where
    -- One future of the panel.
    unfoldable pub ask_member : Candidate → O.State → O.State × Option (Reply P)
    ask_member c st =
        let (st', result) =
          O.timeout fusion.timeout
            (λ w. retry_same_provider O.sleep (λ w. O.chat w c.0 req c.1 (byok_key_for req c.0)) w)
            st in
        (st', elim result [ none ↦ none | some (ok resp) ↦ some (c, resp) | some (err e) ↦ none ])

    unfoldable pub start_panel :
        List Candidate
        → RouterState P O.State
        → RouterState P O.State × List (O.State → O.State × Option (Reply P))
    unfolding join_panel ask_member
    start_panel [] st = (st, [])
    start_panel (c ∷ cs) st =
        let (st', joins) = join_panel c st in
        let (st'', futures) = start_panel cs st' in
        (st'', if joins then ask_member c ∷ futures else futures)

    unfoldable pub panel_replies :
        List Candidate → RouterState P O.State → RouterState P O.State × List (Reply P)
    unfolding start_panel
    panel_replies panel st =
        let (st', futures) = start_panel panel st in
        let (outside, results) = O.join_all futures st'.outside in
        (record st' { outside = outside }, flatten results)

    -- The judge's response with the totals of all that was counted.
    unfoldable pub finish_fusion :
        Candidate
        → ChatResponse P
        → RouterState P O.State × Totals P
        → RouterState P O.State × ChatResponse P
    unfolding record_reply
    finish_fusion judge resp p =
        let (st, t) = record_reply p (judge, resp) in
        let final_resp = record resp {
          usage = t.summed_usage;
          cost_usd = if t.any_cost then some t.summed_cost else none;
        } in
        let count : (Usage → ℕ) → ℕ =
          λ field. elim t.summed_usage [ none ↦ 0 | some u ↦ field u ] in
        let generation : GenerationRecord P = record {
          id = final_resp.id;
          model = final_resp.model;
          created = final_resp.created;
          prompt_tokens = count (λ u. u.prompt_tokens);
          completion_tokens = count (λ u. u.completion_tokens);
          total_tokens = count (λ u. u.total_tokens);
          cost_usd = final_resp.cost_usd;
        } in
        (record st { generations = generation_insert generation st.generations }, final_resp)

    -- The judge's call, behind the accounting of the replies.
    unfoldable pub ask_judge :
        Candidate
        → List (Reply P)
        → RouterState P O.State × Totals P
        → RouterState P O.State × Result (ChatResponse P) (RouterError P)
    unfolding finish_fusion
    ask_judge judge replies (st, t) =
        let judge_req = build_judge_request req fusion.judge replies in
        let (outside, result) =
          retry_same_provider O.sleep
            (λ w. O.chat w judge.0 judge_req judge.1 (byok_key_for req judge.0)) st.outside in
        let st' = record st { outside = outside } in
        elim result [
          | err e ↦ (log_attempt O s judge "error" st', err (provider e))
          | ok resp ↦
              let (st'', final_resp) = finish_fusion judge resp (st', t) in (st'', ok final_resp)
        ]

    unfoldable pub synthesize :
        List (Reply P)
        → RouterState P O.State
        → RouterState P O.State × Result (ChatResponse P) (RouterError P)
    unfolding record_replies ask_judge
    synthesize replies st =
        let counted = record_replies (st, no_totals) replies in
        elim (split_once fusion.judge) [
          | none ↦ (counted.0, err (invalid_model fusion.judge))
          | some judge ↦
              if contains s.providers judge.0
              then ask_judge judge replies counted
              else (counted.0, err (provider_not_configured judge.0))
        ]

    -- What follows the panel: no reply, a tool call, or the judge.
    unfoldable pub settle :
        List (Reply P)
        → RouterState P O.State
        → RouterState P O.State × Result (ChatResponse P) (RouterError P)
    unfolding find_tool_call synthesize
    settle [] st = (st, err (provider panel_failed))
    settle (r ∷ replies) st = elim (find_tool_call (r ∷ replies)) [
      | some (c, resp) ↦ (log_attempt O s c "success" st, ok resp)
      | none ↦ synthesize (r ∷ replies) st
    ]

    unfoldable pub dispatch_fusion :
        List Candidate
        → RouterState P O.State
        → RouterState P O.State × Result (ChatResponse P) (RouterError P)
    unfolding panel_replies settle
    dispatch_fusion panel st = let (st', replies) = panel_replies panel st in settle replies st'
