-- ===== src/Chain/Filters/Laws.antt =====
-- What a request's required parameters and its own budget guarantee of the chain.
use mathlib.Core.List.Perm
use mathlib.Core.List.{Perm}
use rusty_provider.Prelude.{
  ℕ, String, some, List, [], Bool, true, unwrap_or, if◌then◌else◌, is_empty, is_empty_iff, is_none,
  retain, retain-All, All, ◌&&◌, ◌⊎◌, ◌≡◌, ◌≢◌, refl, arith, Bool-cases, inl, inr, lookup,
  string_eq,
}
use rusty_provider.Prelude.Results.{ok, err}
use rusty_provider.Platform.{Platform, PlatformLaws}
use rusty_provider.Core.Errors.{no_eligible_provider}
use rusty_provider.Core.Types.{ChatRequest, ProviderPreferences}
use rusty_provider.Chain.Settings.{Candidate, RouterSettings, anthropic}
use rusty_provider.Chain.Sort.{sort_by, sort_by-IsSorted, All-sort_by, IsSorted}
use rusty_provider.Chain.Preferences.{is_word}
use rusty_provider.Chain.Filters.{
  active_params, supported_params, supports_all, requires_parameters, filter_by_required_parameters,
  estimated_cost, fits_cap, cost_le, rank_by_cost, apply_request_budget,
}

module _ {P : Platform} where
  -- A request that requires its parameters keeps a nonempty result of candidates whose provider
  -- kind supports each parameter that it sets, or fails; it fails exactly when no candidate does.
  pub filter_by_required_parameters-required :
      (s : RouterSettings P) (model : String) (chain : List Candidate) (req : ChatRequest P)
      → requires_parameters req ≡ true
      → ((filter_by_required_parameters s model chain req ≡ err (no_eligible_provider model))
          × (retain (supports_all s (active_params req)) chain ≡ []))
        ⊎ ((r : List Candidate) × (filter_by_required_parameters s model chain req ≡ ok r)
            × (r ≢ [])
            × (r ≡ retain (supports_all s (active_params req)) chain))
  unfolding filter_by_required_parameters
  filter_by_required_parameters-required s model chain req required =
      let kept = retain (supports_all s (active_params req)) chain in
      elim (Bool-cases (is_empty kept)) [
        | inl empty ↦ inl (ground arith, ground (arith, is_empty_iff kept))
        | inr full ↦ inr (kept, ground arith, ground (arith, is_empty_iff kept), refl)
      ]

  -- The request sets a cap and a completion length, and so has a budget.
  abbrev pub HasCap : ChatRequest P → ProviderPreferences P → P.F64 → ℕ → Type 0
  HasCap req prefs cap max_tokens =
      (req.provider ≡ some prefs)
      × (prefs.max_request_price_usd ≡ some cap)
      × (req.max_tokens ≡ some max_tokens)

  -- What the early returns leave.
  apply_request_budget-HasCap :
      (s : RouterSettings P) (model : String) (chain : List Candidate) (req : ChatRequest P)
      (prefs : ProviderPreferences P) (cap : P.F64) (max_tokens : ℕ)
      → HasCap req prefs cap max_tokens
      → apply_request_budget s model chain req ≡ (
          if is_empty chain
          then ok chain
          else rank_by_cost s model chain (is_word prefs.budget_fallback "strict") cap max_tokens)
  unfolding apply_request_budget
  apply_request_budget-HasCap s model chain req prefs cap max_tokens h = ground arith

  module _ (laws : PlatformLaws P) where
    sort_by-cost_le :
        (s : RouterSettings P) (max_tokens : ℕ) (chain : List Candidate)
        → IsSorted (cost_le s max_tokens) (sort_by (cost_le s max_tokens) chain)
    unfolding cost_le
    sort_by-cost_le s max_tokens chain =
        let cost : Candidate → P.F64 = λ c. unwrap_or (estimated_cost s max_tokens c) P.max_value in
        sort_by-IsSorted (cost_le s max_tokens) (λ a b. laws.total_le_total (cost a) (cost b))
          (λ a b c. laws.total_le_trans (cost a) (cost b) (cost c)) chain

    -- Under a strict cap, every candidate of the result has a known worst-case cost within the cap,
    -- and the cheapest comes first.
    pub apply_request_budget-strict :
        (s : RouterSettings P) (model : String) (chain r : List Candidate) (req : ChatRequest P)
        (prefs : ProviderPreferences P) (cap : P.F64) (max_tokens : ℕ)
        → HasCap req prefs cap max_tokens
        → is_word prefs.budget_fallback "strict" ≡ true
        → apply_request_budget s model chain req ≡ ok r
        → All (λ c. fits_cap s max_tokens cap c ≡ true) r × IsSorted (cost_le s max_tokens) r
    unfolding rank_by_cost
    apply_request_budget-strict s model chain r req prefs cap max_tokens h strict result =
        let fits = retain (fits_cap s max_tokens cap) chain in
        let whole = apply_request_budget-HasCap s model chain req prefs cap max_tokens h in
        let kept =
          All-sort_by (cost_le s max_tokens) (λ c. fits_cap s max_tokens cap c ≡ true) fits
            (retain-All (fits_cap s max_tokens cap) chain) in
        elim (Bool-cases (is_empty chain)) [
          | inl empty ↦ let same : r ≡ [] = ground (arith, is_empty_iff chain) in rw same (tt, tt)
          | inr full ↦
              let same : r ≡ sort_by (cost_le s max_tokens) fits = ground arith in
              rw same (kept, sort_by-cost_le s max_tokens fits)
        ]

  -- The parameters that the Anthropic adapter does not take.
  abbrev pub is_plain_for_anthropic : ChatRequest P → Bool
  is_plain_for_anthropic req =
      is_none req.min_p
      && (is_none req.top_a
          && (is_none req.frequency_penalty
              && (is_none req.presence_penalty
                  && (is_none req.repetition_penalty
                      && (is_none req.logit_bias && (is_none req.seed && is_none req.logprobs))))))

  -- An Anthropic provider supports a request exactly when the request sets no sampling parameter
  -- but temperature, top_p and top_k.
  supports_all-anthropic :
      (s : RouterSettings P) (c : Candidate) (req : ChatRequest P)
      → lookup c.0 s.provider_kinds ≡ some anthropic
      → supports_all s (active_params req) c ≡ is_plain_for_anthropic req
  unfolding supports_all active_params supported_params
  supports_all-anthropic s c req kind = ground arith
