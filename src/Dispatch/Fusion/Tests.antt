-- ===== src/Dispatch/Fusion/Tests.antt =====
-- Examples for fusion: a panel of two with a judge, and a panel whose member calls a tool.
use rusty_provider.Prelude.{ℕ, ◌+◌, lookup, none, some, List, [], ◌∷◌, ◌≡◌, refl, true}
use rusty_provider.Prelude.Results.{Result, ok}
use rusty_provider.Core.Types.{assistant, ChatResponse, message_of}
use rusty_provider.Core.Errors.{RouterError}
use rusty_provider.Chain.Settings.{Candidate, RouterSettings, FusionConfig}
use rusty_provider.Samples.{nat_platform, answer, request, settings, outside, router_state}
use rusty_provider.Dispatch.{
  Outside, RouterState, retry_same_provider, retry_loop, record_usage, usage_cost, cost_of,
  add_usage, check_outbound_rate_limit, log_attempt,
}
use rusty_provider.Chain.Resolve.{split_once}
use rusty_provider.Dispatch.Judge.{calls_tools, find_tool_call, add_totals, sum_usage}
use rusty_provider.Dispatch.Fusion.{
  record_contribution, record_reply, record_replies, join_panel, ask_member, start_panel,
  panel_replies, finish_fusion, ask_judge, synthesize, settle, dispatch_fusion,
}
use rusty_provider.Dispatch.Fusion.Books.{Entry}
use rusty_provider.Dispatch.Fusion.Answers.{
  Accounts, dispatch_fusion-answer, dispatch_fusion-tool_call,
}

abbrev fusion : FusionConfig
fusion = record { judge = "up/judge"; timeout = 1_000_000_000 }

abbrev stored : RouterSettings nat_platform
stored = record settings { persistent = true }

-- The third member is not configured, and takes no part.
abbrev panel : List Candidate
panel = ("up", "m") ∷ ("up", "m2") ∷ ("gone", "m") ∷ []

abbrev run :
    RouterState nat_platform ℕ × Result (ChatResponse nat_platform) (RouterError nat_platform)
run = dispatch_fusion outside stored (request none) fusion panel router_state

-- The judge's answer, with the tokens of three responses and the cost of the one with a price.
abbrev judged : ChatResponse nat_platform
judged = record (answer "judge") {
  usage = some (record {
    prompt_tokens = 30;
    completion_tokens = 60;
    total_tokens = 90;
    cached_tokens = none;
    cache_creation_tokens = none;
  });
  cost_usd = some 60;
}

no_tools :
    find_tool_call (panel_replies outside stored (request none) fusion panel router_state).1 ≡ none
unfolding panel_replies start_panel join_panel ask_member find_tool_call calls_tools
    retry_same_provider retry_loop check_outbound_rate_limit log_attempt lookup
no_tools = refl

run-judged : run ≡ (run.0, ok judged)
unfolding dispatch_fusion settle synthesize ask_judge finish_fusion record_replies record_reply
    record_contribution panel_replies start_panel join_panel ask_member find_tool_call calls_tools
    retry_same_provider retry_loop check_outbound_rate_limit log_attempt add_totals sum_usage
    record_usage usage_cost cost_of add_usage split_once lookup
run-judged = refl

dispatch_fusion-answer_example :
    (judge : Candidate) × (verdict : ChatResponse nat_platform) × (es : List (Entry nat_platform))
    × Accounts outside stored
        (request none)
        fusion
        (panel_replies outside stored (request none) fusion panel router_state).1
        router_state.persisted
        run.0
        judged
        judge
        verdict
        es
dispatch_fusion-answer_example =
    dispatch_fusion-answer outside stored (request none) fusion panel router_state run.0 judged
      no_tools run-judged

-- A provider that always calls a tool.
abbrev call : ChatResponse nat_platform
call = record (answer "m") {
  choices =
      record {
        index = 0;
        message = record (message_of assistant "") {
          tool_calls = some (
              record {
                id = "call-1";
                kind = "function";
                function = record { name = "look"; arguments = "{}" };
              }
              ∷ []);
        };
        finish_reason = some "tool_calls";
        logprobs = none;
      }
      ∷ [];
}

abbrev calling : Outside nat_platform
calling = record outside { chat = λ (n : ℕ) name req model key. (n + 1, ok call) }

abbrev called :
    RouterState nat_platform ℕ × Result (ChatResponse nat_platform) (RouterError nat_platform)
called = dispatch_fusion calling stored (request none) fusion panel router_state

finds_call :
    find_tool_call (panel_replies calling stored (request none) fusion panel router_state).1
    ≡ some (("up", "m"), call)
unfolding panel_replies start_panel join_panel ask_member find_tool_call calls_tools
    retry_same_provider retry_loop check_outbound_rate_limit log_attempt lookup
finds_call = refl

dispatch_fusion-tool_call_example :
    (called.1 ≡ ok call)
    × (called.0.usage ≡ router_state.usage)
    × (called.0.persisted ≡ router_state.persisted)
dispatch_fusion-tool_call_example =
    dispatch_fusion-tool_call calling stored (request none) fusion panel router_state ("up", "m")
      call finds_call
