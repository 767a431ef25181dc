-- ===== src/Budget/Spend/Laws.antt =====
-- In-memory client spend: what is tracked, and when a request is refused.
use rusty_provider.Prelude.{
  String, true, none, some, lookup, insert, if◌then◌else◌, string_eq, ◌==◌, beq_refl, ◌≡◌, ◌≢◌,
  refl, arith, lookup-insert,
}
use rusty_provider.Prelude.Int.{ℤ, eqb_ℤ, eqb_ℤ→eq, eq→eqb_ℤ}
use rusty_provider.Prelude.Results.{ok, err}
use rusty_provider.Platform.{Platform}
use rusty_provider.Budget.Calendar.{period_key_at}
use rusty_provider.Budget.Spend.{
  Persistence, ClientBudgetSetting, SpendState, BudgetState, rolled_spend, spent_usd_for,
  check_client_budget, reset_client_spend, record_client_spend,
}

module _ {P : Platform} (B : Persistence P) where
  -- The spend that counts in the period with the given number.
  unfoldable pub tracked : BudgetState B → String → ℤ → P.F64
  tracked s name current = elim (lookup name s.client_spend) [
    | none ↦ P.of_nat 0
    | some state ↦ if eqb_ℤ state.period_key current then state.spent_usd else P.of_nat 0
  ]

  pub rolled_spend-tracked :
      (s : BudgetState B) (name : String) (current : ℤ)
      → ((rolled_spend B s name current).spent_usd ≡ tracked s name current)
        × ((rolled_spend B s name current).period_key ≡ current)
  unfolding rolled_spend tracked
  rolled_spend-tracked s name current = grind (arith, eqb_ℤ→eq)

  pub tracked-insert :
      (s : BudgetState B) (name j : String) (state : SpendState P) (current : ℤ)
      → tracked (record s { client_spend = insert name state s.client_spend }) j current ≡ (
          if name == j
          then if eqb_ℤ state.period_key current then state.spent_usd else P.of_nat 0
          else tracked s j current)
  unfolding tracked
  tracked-insert s name j state current = ground (arith, lookup-insert name j state s.client_spend)

  module _ (s : BudgetState B) (name : String) (setting : ClientBudgetSetting P) (now : ℤ)
      (budgeted : lookup name s.client_budgets ≡ some setting)
      (in_memory : s.persistence ≡ none) where
    abbrev current : ℤ
    current = period_key_at setting.period now

    -- Without a database, a client with a budget is refused exactly when the spend tracked in the
    -- current period has reached the budget, with both figures in the refusal; the check leaves what
    -- is tracked alone, and the entries of other clients.
    pub check_client_budget-tracked :
        ((check_client_budget B s name now).1 ≡ (
          if P.le setting.budget_usd (tracked s name current)
          then err (record { spent_usd = tracked s name current; budget_usd = setting.budget_usd })
          else ok tt))
        × (tracked (check_client_budget B s name now).0 name current ≡ tracked s name current)
        × ((j : String)
            → j ≢ name
            → lookup j (check_client_budget B s name now).0.client_spend ≡ lookup j s.client_spend)
    unfolding check_client_budget spent_usd_for
    check_client_budget-tracked =
        let (spent, period) = rolled_spend-tracked s name current in
        (
          ground (arith, budgeted, in_memory, spent),
          ground (
            arith,
            budgeted,
            in_memory,
            tracked-insert s name name (rolled_spend B s name current) current,
            beq_refl name,
            spent,
            eq→eqb_ℤ _ _ period,
          ),
          λ j ne. ground (
            arith,
            budgeted,
            in_memory,
            lookup-insert name j (rolled_spend B s name current) s.client_spend,
            string_eq.beq_iff name j,
          ),
        )

    -- Without a database, the cost recorded for a client with a budget is added to the spend of the
    -- current period, which starts at 0, and no other client's entry is touched.
    pub tracked-record_client_spend :
        (cost : P.F64)
        → (tracked (record_client_spend B s name cost now).0 name current
            ≡ P.add (tracked s name current) cost)
          × ((j : String)
              → j ≢ name
              → lookup j (record_client_spend B s name cost now).0.client_spend
                ≡ lookup j s.client_spend)
    unfolding record_client_spend
    tracked-record_client_spend cost =
        let (spent, period) = rolled_spend-tracked s name current in
        let state = rolled_spend B s name current in
        (
          ground (
            arith,
            budgeted,
            in_memory,
            tracked-insert s name name (record state { spent_usd = P.add state.spent_usd cost })
                current,
            beq_refl name,
            spent,
            eq→eqb_ℤ _ _ period,
          ),
          λ j ne. ground (
            arith,
            budgeted,
            in_memory,
            lookup-insert name j (record state { spent_usd = P.add state.spent_usd cost })
                s.client_spend,
            string_eq.beq_iff name j,
          ),
        )

    -- Without a database, after the reset of a client with a budget nothing is spent in the current
    -- period, and the reset says that it took place.
    tracked-reset_client_spend :
        (tracked (reset_client_spend B s name now).0 name current ≡ P.of_nat 0)
        × ((reset_client_spend B s name now).2 ≡ true)
    unfolding reset_client_spend
    tracked-reset_client_spend = (
      ground (
        arith,
        budgeted,
        in_memory,
        tracked-insert s name name (record { period_key = current; spent_usd = P.of_nat 0 })
            current,
        beq_refl name,
        eq→eqb_ℤ current current refl,
      ),
      ground (arith, budgeted),
    )
