-- ===== src/Chain/Filters.antt =====
-- `filter_by_required_parameters` and `apply_request_budget`: the two filters of a chain that look
-- at the request itself.
pub mod Laws
use rusty_provider.Prelude.{
  ℕ, String, Option, none, some, List, [], ◌∷◌, ◌++◌, Map, Bool, true, false, unwrap_or, lookup,
  string_eq, if◌then◌else◌, is_empty, is_some, ◌==◌, not, retain, contains, any, all,
}
use rusty_provider.Prelude.Results.{Result, ok, err}
use rusty_provider.Platform.{Platform}
use rusty_provider.Core.Errors.{RouterError, no_eligible_provider, request_budget_exceeded}
use rusty_provider.Core.Types.{ChatRequest, ProviderPreferences}
use rusty_provider.Chain.Settings.{
  Candidate, key_of, ProviderKind, openai, anthropic, gemini, RouterSettings,
}
use rusty_provider.Chain.Sort.{sort_by}
use rusty_provider.Chain.Preferences.{is_word}

abbrev pub common_params : List String
common_params =
    "temperature" ∷ "top_p" ∷ "max_tokens" ∷ "stop" ∷ "tools" ∷ "tool_choice" ∷ "response_format"
    ∷ "reasoning" ∷ "top_k" ∷ []

unfoldable pub supported_params : ProviderKind → List String
supported_params openai =
    common_params
    ++ ("min_p" ∷ "top_a" ∷ "frequency_penalty" ∷ "presence_penalty" ∷ "repetition_penalty"
        ∷ "logit_bias" ∷ "seed" ∷ "logprobs" ∷ [])
supported_params anthropic = common_params ++ ("cache_control" ∷ [])
supported_params gemini = common_params ++ ("frequency_penalty" ∷ "presence_penalty" ∷ "seed" ∷ [])

-- `if present { params.push(name) }`, in front of the pushes that follow.
abbrev pub push_if : Bool → String → List String → List String
push_if present name rest = if present then name ∷ rest else rest

module _ {P : Platform} where
  unfoldable pub active_params : ChatRequest P → List String
  active_params req = push_if (is_some req.tools) "tools" (
      push_if (is_some req.tool_choice) "tool_choice" (
        push_if (is_some req.response_format) "response_format" (
          push_if (is_some req.reasoning) "reasoning" (
            push_if (is_some req.top_k) "top_k" (
              push_if (is_some req.min_p) "min_p" (
                push_if (is_some req.top_a) "top_a" (
                  push_if (is_some req.frequency_penalty) "frequency_penalty" (
                    push_if (is_some req.presence_penalty) "presence_penalty" (
                      push_if (is_some req.repetition_penalty) "repetition_penalty" (
                        push_if (is_some req.logit_bias) "logit_bias" (
                          push_if (is_some req.seed) "seed" (
                            push_if (is_some req.logprobs) "logprobs" (
                              push_if (any (λ m. is_some m.cache_control) req.messages)
                                "cache_control" [])))))))))))))

  unfoldable pub supports_all : RouterSettings P → List String → Candidate → Bool
  supports_all s active c = elim (lookup c.0 s.provider_kinds) [
    | none ↦ false
    | some kind ↦ all (λ p. contains (supported_params kind) p) active
  ]

  unfoldable pub requires_parameters : ChatRequest P → Bool
  requires_parameters req = elim req.provider [
    | none ↦ false
    | some prefs ↦ unwrap_or prefs.require_parameters false
  ]

  unfoldable pub filter_by_required_parameters :
      RouterSettings P
      → String
      → List Candidate
      → ChatRequest P
      → Result (List Candidate) (RouterError P)
  filter_by_required_parameters s model chain req =
      let kept = retain (supports_all s (active_params req)) chain in
      if not (requires_parameters req)
      then ok chain
      else if is_empty kept
      then err (no_eligible_provider model)
      else ok kept

  -- The worst case of a candidate's completion, `max_tokens` tokens at its price.
  unfoldable pub estimated_cost : RouterSettings P → ℕ → Candidate → Option P.F64
  estimated_cost s max_tokens c = elim (lookup (key_of c) s.pricing) [
    | none ↦ none
    | some rates ↦
        some (P.div (P.mul (P.of_nat max_tokens) rates.completion_ppm) (P.of_nat 1000000))
  ]

  unfoldable pub fits_cap : RouterSettings P → ℕ → P.F64 → Candidate → Bool
  fits_cap s max_tokens cap c = elim (estimated_cost s max_tokens c) [
    | none ↦ false
    | some cost ↦ P.le cost cap
  ]

  unfoldable pub cost_le : RouterSettings P → ℕ → Candidate → Candidate → Bool
  cost_le s max_tokens a b =
      P.total_le (unwrap_or (estimated_cost s max_tokens a) P.max_value)
        (unwrap_or (estimated_cost s max_tokens b) P.max_value)

  -- The part behind the early returns.
  unfoldable pub rank_by_cost :
      RouterSettings P
      → String
      → List Candidate
      → (strict : Bool) → P.F64
      → ℕ
      → Result (List Candidate) (RouterError P)
  rank_by_cost s model chain strict cap max_tokens =
      let fits = retain (fits_cap s max_tokens cap) chain in
      if not (is_empty fits)
      then ok (sort_by (cost_le s max_tokens) (if strict then fits else chain))
      else if strict
      then err (request_budget_exceeded model cap)
      else ok (sort_by (cost_le s max_tokens) chain)

  unfoldable pub apply_request_budget :
      RouterSettings P
      → String
      → List Candidate
      → ChatRequest P
      → Result (List Candidate) (RouterError P)
  unfolding rank_by_cost
  apply_request_budget s model chain req = elim req.provider [
    | none ↦ ok chain
    | some prefs ↦ elim prefs.max_request_price_usd [
      | none ↦ ok chain
      | some cap ↦ elim req.max_tokens [
        | none ↦ ok chain
        | some max_tokens ↦
            if is_empty chain
            then ok chain
            else rank_by_cost s model chain (is_word prefs.budget_fallback "strict") cap max_tokens
      ]
    ]
  ]
