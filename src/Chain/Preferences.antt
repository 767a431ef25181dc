-- ===== src/Chain/Preferences.antt =====
-- `apply_preferences`: the candidates that a request's `provider` preferences allow, in the order
-- that they ask for, with the unhealthy ones last.
pub mod Laws
pub mod Order
use rusty_provider.Prelude.{
  ℕ, String, Option, none, some, List, [], ◌∷◌, Map, Bool, true, false, unwrap_or, lookup,
  string_eq, if◌then◌else◌, is_empty, ◌==◌, not, retain, contains,
}
use rusty_provider.Prelude.Int.{ℤ}
use rusty_provider.Prelude.Results.{Result, ok, err}
use rusty_provider.Platform.{Platform}
use rusty_provider.Core.Errors.{RouterError, no_eligible_provider}
use rusty_provider.Core.Types.{ProviderPreferences}
use rusty_provider.Budget.FreeTiers.{FreeTierStatus, status_snapshot}
use rusty_provider.Chain.Settings.{Candidate, key_of, RouterSettings, RouterStats, ewma_lookup}
use rusty_provider.Chain.Sort.{sort_by, key_le}
use rusty_provider.Chain.Shuffle.{shuffle_chain}

-- `opt == Some(true)` and `opt.as_deref() == Some(word)`.
abbrev pub is_true : Option Bool → Bool
is_true none = false
is_true (some b) = b

abbrev pub is_word : Option String → String → Bool
is_word none word = false
is_word (some w) word = w == word

unfoldable pub keep_only : Option (List String) → List Candidate → List Candidate
keep_only none chain = chain
keep_only (some names) chain = retain (λ c. contains names c.0) chain

unfoldable pub drop_ignored : Option (List String) → List Candidate → List Candidate
drop_ignored none chain = chain
drop_ignored (some names) chain = retain (λ c. not (contains names c.0)) chain

unfoldable pub keep_listed : Option Bool → List String → List Candidate → List Candidate
keep_listed flag names chain =
    if is_true flag then retain (λ c. contains names c.0) chain else chain

module _ {P : Platform} where
  unfoldable pub within_price : RouterSettings P → P.F64 → Candidate → Bool
  within_price s cap c = elim (lookup (key_of c) s.pricing) [
    | none ↦ false
    | some rates ↦ P.le rates.prompt_ppm cap
  ]

  unfoldable pub keep_priced : RouterSettings P → Option P.F64 → List Candidate → List Candidate
  keep_priced s none chain = chain
  keep_priced s (some cap) chain = retain (within_price s cap) chain

  -- The five filters, in the code's order.
  unfoldable pub apply_filters :
      RouterSettings P → ProviderPreferences P → List Candidate → List Candidate
  unfolding keep_only drop_ignored keep_listed keep_priced
  apply_filters s prefs chain = keep_priced s prefs.max_price (
      keep_listed prefs.data_collection s.no_training_providers (
        keep_listed prefs.zdr s.zdr_providers
          (drop_ignored prefs.ignore (keep_only prefs.only chain))))

  -- What each ranking compares, with its value for a candidate that has none.
  unfoldable pub price_of : RouterSettings P → Candidate → P.F64
  price_of s c = elim (lookup (key_of c) s.pricing) [
    | none ↦ P.max_value
    | some rates ↦ rates.prompt_ppm
  ]

  unfoldable pub quality_of : RouterSettings P → Candidate → P.F64
  quality_of s c = elim (lookup (key_of c) s.pricing) [
    | none ↦ P.min_value
    | some rates ↦ unwrap_or rates.quality_score P.min_value
  ]

module _ (P : Platform) where
  unfoldable pub remaining_of : Map String FreeTierStatus → Candidate → P.F64
  remaining_of status c = elim (lookup (key_of c) status) [
    | none ↦ P.min_value
    | some t ↦ P.of_nat t.tokens_remaining
  ]

  unfoldable pub ascending : (Candidate → P.F64) → List Candidate → List Candidate
  ascending f = sort_by (λ a b. P.total_le (f a) (f b))

  unfoldable pub descending : (Candidate → P.F64) → List Candidate → List Candidate
  descending f = sort_by (λ a b. P.total_le (f b) (f a))

module _ {P : Platform} where
  -- The `match` on `sort`; `now` is the Unix time and `now_nanos` the clock that seeds the shuffle.
  unfoldable pub rank :
      RouterSettings P
      → RouterStats P
      → (now : ℤ) (now_nanos : ℕ) → Option String
      → List Candidate
      → RouterStats P × List Candidate
  unfolding ascending descending
  rank s st now now_nanos sort chain =
      if is_word sort "price"
      then (st, ascending P (price_of s) chain)
      else if is_word sort "latency"
      then (st, ascending P (λ c. ewma_lookup P st.latency c P.max_value) chain)
      else if is_word sort "throughput"
      then (st, descending P (λ c. ewma_lookup P st.throughput c (P.of_nat 0)) chain)
      else if is_word sort "uptime"
      then (st, descending P (λ c. ewma_lookup P st.uptime c (P.of_nat 0)) chain)
      else if is_word sort "quality"
      then (st, descending P (quality_of s) chain)
      else if is_word sort "random"
      then (st, shuffle_chain now_nanos chain)
      else if is_word sort "free_tier_remaining"
      then (let snapshot = status_snapshot s.free_tier_settings st.free_tier_usage now in
          (
            record st { free_tier_usage = snapshot.0 },
            descending P (remaining_of P snapshot.1) chain,
          ))
      else (st, chain)

  -- `UNHEALTHY_UPTIME_THRESHOLD`, 0.5.
  unfoldable pub is_unhealthy : RouterStats P → Candidate → Bool
  is_unhealthy st c = elim (lookup (key_of c) st.uptime) [
    | none ↦ false
    | some rate ↦ P.lt rate (P.div (P.of_nat 1) (P.of_nat 2))
  ]

  unfoldable pub deprioritize_unhealthy : RouterStats P → List Candidate → List Candidate
  deprioritize_unhealthy st chain = sort_by (key_le (is_unhealthy st)) chain

  unfoldable pub apply_preferences :
      RouterSettings P
      → RouterStats P
      → (now : ℤ) (now_nanos : ℕ) → String
      → List Candidate
      → Option (ProviderPreferences P)
      → RouterStats P × Result (List Candidate) (RouterError P)
  apply_preferences s st now now_nanos model chain none = (st, ok (deprioritize_unhealthy st chain))
  apply_preferences s st now now_nanos model chain (some prefs) =
      let filtered = apply_filters s prefs chain in
      let ranked = rank s st now now_nanos prefs.sort filtered in
      if is_empty filtered
      then (st, err (no_eligible_provider model))
      else if is_word prefs.sort "uptime"
      then (ranked.0, ok ranked.1)
      else (ranked.0, ok (deprioritize_unhealthy ranked.0 ranked.1))
