-- ===== src/Dispatch/Judge.antt =====
-- What `dispatch_fusion` asks of its judge, and the totals that it keeps: `build_judge_request` and
-- `sum_usage`.
use Prim.Native.String as Str
use rusty_provider.Prelude.{
  ℕ, ◌+◌, String, Option, none, some, List, [], ◌∷◌, ◌++◌, Bool, true, false, if◌then◌else◌,
  string_eq, is_some,
}
use rusty_provider.Platform.{Platform}
use rusty_provider.Core.Types.{ChatRequest, ChatResponse, Usage, user, message_of, as_plain_text}
use rusty_provider.Core.Errors.{ProviderError, upstream}
use rusty_provider.Chain.Settings.{Candidate}
use rusty_provider.AutoRouting.{u32}
use rusty_provider.Prelude.Texts.{decimal}

abbrev pub sum_optional : Option ℕ → Option ℕ → Option ℕ
sum_optional none none = none
sum_optional none (some y) = some y
sum_optional (some x) none = some x
sum_optional (some x) (some y) = some (u32 (x + y))

-- The sums in 32 bits.
unfoldable pub sum_usage : Usage → Usage → Usage
sum_usage a b = record {
  prompt_tokens = u32 (a.prompt_tokens + b.prompt_tokens);
  completion_tokens = u32 (a.completion_tokens + b.completion_tokens);
  total_tokens = u32 (a.total_tokens + b.total_tokens);
  cached_tokens = sum_optional a.cached_tokens b.cached_tokens;
  cache_creation_tokens = sum_optional a.cache_creation_tokens b.cache_creation_tokens;
}

-- A candidate of the panel and its response.
abbrev pub Reply : Platform → Type 0
Reply P = Candidate × ChatResponse P

abbrev pub panel_failed : ProviderError
panel_failed = upstream 503 "fusion panel: every candidate failed, timed out, or was rate-limited"

-- `summed_usage`, `summed_cost` and `any_cost`.
pub record Totals (P : Platform) : Type 0 where
  pub summed_usage : Option Usage
  pub summed_cost : P.F64
  pub any_cost : Bool

-- `Iterator::flatten`.
abbrev pub flatten : {A : Type 0} → List (Option A) → List A
flatten [] = []
flatten (none ∷ os) = flatten os
flatten (some a ∷ os) = a ∷ flatten os

module _ {P : Platform} where
  -- The plain text of the first choice.
  unfoldable pub reply_text : ChatResponse P → String
  reply_text resp = elim resp.choices [
    | [] ↦ ""
    | choice ∷ rest ↦ elim choice.message.content [ none ↦ "" | some c ↦ as_plain_text c ]
  ]

  -- The replies under their labels, from a number on.
  unfoldable pub label_candidates : ℕ → List (Reply P) → String
  unfolding reply_text
  label_candidates i [] = ""
  label_candidates i ((c, resp) ∷ replies) = Str.◌++◌ "\n--- Candidate " (
      Str.◌++◌ (decimal (i + 1)) (
        Str.◌++◌ " ---\n"
          (Str.◌++◌ (reply_text resp) (Str.◌++◌ "\n" (label_candidates (i + 1) replies)))))

  unfoldable pub build_judge_request : ChatRequest P → String → List (Reply P) → ChatRequest P
  unfolding label_candidates message_of
  build_judge_request req judge replies = record req {
    model = judge;
    models = none;
    tools = none;
    tool_choice = none;
    messages =
        req.messages
        ++ message_of user (
            Str.◌++◌
              "Multiple candidate answers were generated for the preceding request. Synthesize them into a single, best final answer. Do not mention that there were multiple candidates.\n"
              (label_candidates 0 replies))
          ∷ [];
  }

  -- Whether the first choice of a response calls tools.
  unfoldable pub calls_tools : ChatResponse P → Bool
  calls_tools resp = elim resp.choices [
    | [] ↦ false
    | choice ∷ rest ↦ is_some choice.message.tool_calls
  ]

  unfoldable pub find_tool_call : List (Reply P) → Option (Reply P)
  unfolding calls_tools
  find_tool_call [] = none
  find_tool_call (r ∷ replies) = if calls_tools r.1 then some r else find_tool_call replies

  abbrev pub no_totals : Totals P
  no_totals = record { summed_usage = none; summed_cost = P.of_nat 0; any_cost = false }

  unfoldable pub add_totals : Usage → Option P.F64 → Totals P → Totals P
  unfolding sum_usage
  add_totals usage cost t = record {
    summed_usage = elim t.summed_usage [
      | none ↦ some usage
      | some existing ↦ some (sum_usage existing usage)
    ];
    summed_cost = elim cost [ none ↦ t.summed_cost | some x ↦ P.add t.summed_cost x ];
    any_cost = elim cost [ none ↦ t.any_cost | some x ↦ true ];
  }
