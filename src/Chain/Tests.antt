-- ===== src/Chain/Tests.antt =====
-- Examples for chains: resolution, preferences, required parameters and request budgets.
use mathlib.Core.List.{Perm}
use rusty_provider.Prelude.{
  none, some, List, [], ◌∷◌, map, true, retain, lookup, All, string_eq, ◌≡◌, ◌≢◌, refl, ◌⊎◌, ◌↔◌,
}
use rusty_provider.Prelude.Int.{pos}
use rusty_provider.Prelude.Results.{ok, err}
use rusty_provider.Core.Types.{ChatRequest, ProviderPreferences}
use rusty_provider.Core.Errors.{no_eligible_provider}
use rusty_provider.Samples.{
  nat_platform, nat_laws, candidates, settings, stats, preferences, request,
}
use rusty_provider.Chain.Settings.{Candidate, key_of}
use rusty_provider.Chain.Sort.{sort_by, insert_by, IsSorted}
use rusty_provider.Chain.Resolve.{resolve_chain, chain_entries}
use rusty_provider.Chain.Resolve.Laws.{NoSlash, resolve_chain-eq-ok_iff}
use rusty_provider.Chain.Preferences.{
  apply_preferences, apply_filters, keep_only, drop_ignored, keep_listed, keep_priced, rank,
  ascending, price_of, is_unhealthy, deprioritize_unhealthy,
}
use rusty_provider.Chain.Preferences.Laws.{is_eligible, apply_preferences-Perm}
use rusty_provider.Chain.Preferences.Order.{apply_preferences-by_price, marked_last, by_price}
use rusty_provider.Chain.Filters.{
  active_params, supports_all, requires_parameters, filter_by_required_parameters, estimated_cost,
  fits_cap, cost_le, rank_by_cost, apply_request_budget,
}
use rusty_provider.Chain.Filters.Laws.{
  filter_by_required_parameters-required, apply_request_budget-strict,
}

resolve_chain-eq-ok_iff_example : (resolve_chain settings "fast" none ≡ ok candidates) ↔ (
    (map key_of candidates ≡ chain_entries settings "fast" none)
    × All (λ c. NoSlash c.0) candidates)
resolve_chain-eq-ok_iff_example = resolve_chain-eq-ok_iff settings "fast" none candidates

-- A price cap that only one candidate meets.
abbrev capped : ProviderPreferences nat_platform
capped = record preferences { max_price = some 4 }

apply_preferences-Perm_example :
    ((retain (is_eligible settings capped) candidates ≡ [])
      × (apply_preferences settings stats (pos 0) 0 "fast" candidates (some capped)
          ≡ (stats, err (no_eligible_provider "fast"))))
    ⊎ ((retain (is_eligible settings capped) candidates ≢ [])
        × (r : List Candidate) × ((apply_preferences settings stats
              (pos 0)
              0
              "fast"
              candidates
              (some capped)).1
            ≡ ok r)
        × Perm r (retain (is_eligible settings capped) candidates))
apply_preferences-Perm_example =
    apply_preferences-Perm settings stats (pos 0) 0 "fast" candidates capped

abbrev cheapest_first : ProviderPreferences nat_platform
cheapest_first = record preferences { sort = some "price" }

abbrev cheap_chain : List Candidate
cheap_chain = ("up", "m") ∷ ("down", "m") ∷ []

by_price_run :
    (apply_preferences settings stats (pos 0) 0 "fast" candidates (some cheapest_first)).1
    ≡ ok cheap_chain
unfolding apply_preferences apply_filters keep_only drop_ignored keep_listed keep_priced rank
    ascending price_of deprioritize_unhealthy is_unhealthy sort_by insert_by lookup
by_price_run = refl

apply_preferences-by_price_example :
    IsSorted (marked_last (is_unhealthy stats) (by_price settings)) cheap_chain
apply_preferences-by_price_example =
    apply_preferences-by_price nat_laws settings stats (pos 0) 0 "fast" candidates cheap_chain
      cheapest_first refl by_price_run

-- A seeded request that requires its parameters.
abbrev seeded : ChatRequest nat_platform
seeded = record (request (some (record preferences { require_parameters = some true }))) {
  seed = some (pos 7);
}

seeded_requires : requires_parameters seeded ≡ true
unfolding requires_parameters
seeded_requires = refl

filter_by_required_parameters-required_example :
    ((filter_by_required_parameters settings "fast" candidates seeded
        ≡ err (no_eligible_provider "fast"))
      × (retain (supports_all settings (active_params seeded)) candidates ≡ []))
    ⊎ ((r : List Candidate) × (filter_by_required_parameters settings "fast" candidates seeded
          ≡ ok r)
        × (r ≢ [])
        × (r ≡ retain (supports_all settings (active_params seeded)) candidates))
filter_by_required_parameters-required_example =
    filter_by_required_parameters-required settings "fast" candidates seeded seeded_requires

-- At 100 tokens, "up" is estimated at 300 and "down" at 500.
abbrev strict_cap : ProviderPreferences nat_platform
strict_cap = record preferences {
  max_request_price_usd = some 400;
  budget_fallback = some "strict";
}

abbrev up_only : List Candidate
up_only = ("up", "m") ∷ []

strict_run :
    apply_request_budget settings "fast" candidates (request (some strict_cap)) ≡ ok up_only
unfolding apply_request_budget rank_by_cost fits_cap estimated_cost sort_by insert_by lookup
strict_run = refl

apply_request_budget-strict_example :
    All (λ c. fits_cap settings 100 400 c ≡ true) up_only × IsSorted (cost_le settings 100) up_only
apply_request_budget-strict_example =
    apply_request_budget-strict nat_laws settings "fast" candidates up_only
      (request (some strict_cap)) strict_cap 400 100 (refl, refl, refl) refl strict_run

-- A cap that no candidate meets.
abbrev loose_cap : ProviderPreferences nat_platform
loose_cap = record preferences { max_request_price_usd = some 100 }
