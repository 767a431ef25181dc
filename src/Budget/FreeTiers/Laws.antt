-- ===== src/Budget/FreeTiers/Laws.antt =====
-- What is counted against a free-token budget, and what a report shows.
use rusty_provider.Prelude.{
  ℕ, ◌-◌, String, [], ◌∷◌, none, some, Map, lookup, insert, if◌then◌else◌, string_eq, ◌==◌,
  beq_refl, ◌≡◌, ◌≢◌, arith, lookup-insert,
}
use rusty_provider.Prelude.Int.{ℤ, eqb_ℤ, eqb_ℤ→eq, eq→eqb_ℤ}
use rusty_provider.Budget.Calendar.{period_key_at}
use rusty_provider.Budget.FreeTiers.{
  FreeTierSetting, TokenState, saturating_add, rolled_state, record_tokens, status_snapshot,
  status_of,
}

-- The tokens counted for a key in the period with the given number: none if nothing was counted, or
-- only in another period.
unfoldable pub counted : Map String TokenState → String → ℤ → ℕ
counted usage key current = elim (lookup key usage) [
  | none ↦ 0
  | some state ↦ if eqb_ℤ state.period_key current then state.tokens_used else 0
]

rolled_state-counted :
    (usage : Map String TokenState) (key : String) (current : ℤ)
    → ((rolled_state usage key current).tokens_used ≡ counted usage key current)
      × ((rolled_state usage key current).period_key ≡ current)
unfolding rolled_state counted
rolled_state-counted usage key current = grind (arith, eqb_ℤ→eq)

counted-insert :
    (usage : Map String TokenState) (key j : String) (state : TokenState) (current : ℤ)
    → counted (insert key state usage) j current ≡ (
        if key == j
        then if eqb_ℤ state.period_key current then state.tokens_used else 0
        else counted usage j current)
unfolding counted
counted-insert usage key j state current = ground (arith, lookup-insert key j state usage)

module _ (settings : Map String FreeTierSetting) (usage : Map String TokenState) (now : ℤ) where
  -- A use of a configured model adds its tokens to the current period's, up to the largest u64,
  -- and leaves every other model's state alone.
  pub counted-record_tokens :
      (key : String) (tokens : ℕ) (setting : FreeTierSetting)
      → lookup key settings ≡ some setting
      → (counted
            (record_tokens settings usage key tokens now)
            key
            (period_key_at setting.period now)
          ≡ saturating_add (counted usage key (period_key_at setting.period now)) tokens)
        × ((j : String)
            → j ≢ key
            → lookup j (record_tokens settings usage key tokens now) ≡ lookup j usage)
  unfolding record_tokens
  counted-record_tokens key tokens setting found =
      let current = period_key_at setting.period now in
      let state = rolled_state usage key current in
      let (used, period) = rolled_state-counted usage key current in
      (
        ground (
          arith,
          counted-insert usage key key
              (record state { tokens_used = saturating_add state.tokens_used tokens }) current,
          beq_refl key,
          used,
          eq→eqb_ℤ _ _ period,
        ),
        λ j ne. ground (
          arith,
          lookup-insert key j
              (record state { tokens_used = saturating_add state.tokens_used tokens }) usage,
          string_eq.beq_iff key j,
        ),
      )

  -- A use of a model without a budget changes nothing.
  pub record_tokens_unconfigured :
      (key : String) (tokens : ℕ)
      → lookup key settings ≡ none
      → record_tokens settings usage key tokens now ≡ usage
  unfolding record_tokens
  record_tokens_unconfigured key tokens absent = ground arith

-- The report shows, for every configured model, its budget, the tokens counted in the current
-- period, and the rest of the budget, which stops at 0.
lookup-status_snapshot :
    (settings : Map String FreeTierSetting) (usage : Map String TokenState) (now : ℤ) (key : String)
    (setting : FreeTierSetting)
    → lookup key settings ≡ some setting
    → lookup key (status_snapshot settings usage now).1
      ≡ some (record {
        monthly_free_tokens = setting.monthly_free_tokens;
        tokens_used = counted usage key (period_key_at setting.period now);
        tokens_remaining =
            setting.monthly_free_tokens - counted usage key (period_key_at setting.period now);
        period = setting.period;
      })
unfolding status_snapshot lookup status_of
lookup-status_snapshot [] usage now key setting found = cc
lookup-status_snapshot ((k, s) ∷ settings) usage now key setting found = ground (
  arith,
  string_eq.beq_iff k key,
  (rolled_state-counted usage k (period_key_at s.period now)).0,
  counted-insert usage k key (rolled_state usage k (period_key_at s.period now))
      (period_key_at setting.period now),
  lookup-status_snapshot settings
      (insert k (rolled_state usage k (period_key_at s.period now)) usage) now key setting,
)
