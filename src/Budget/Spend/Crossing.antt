-- ===== src/Budget/Spend/Crossing.antt =====
-- A run of recorded costs within one period reports the crossing of the budget once.
use rusty_provider.Prelude.{
  ℕ, suc, ◌+◌, String, true, List, [], ◌∷◌, ◌++◌, none, some, lookup, if◌then◌else◌, string_eq, ◌≡◌,
  arith, All,
}
use rusty_provider.Prelude.Int.{ℤ}
use rusty_provider.Platform.{Platform, PlatformLaws}
use rusty_provider.Budget.Calendar.{period_key_at}
use rusty_provider.Budget.Spend.{
  Persistence, ClientBudgetSetting, BudgetEvent, budget_exceeded, budget_warning, budget_reset,
  BudgetState, crosses, crossing_events, rolled_spend, record_client_spend,
}
use rusty_provider.Budget.Spend.Laws.{tracked, rolled_spend-tracked, tracked-record_client_spend}

module _ {P : Platform} where
  -- How many `budget_exceeded` events a list of events has.
  unfoldable pub count_exceeded : List (BudgetEvent P) → ℕ
  count_exceeded [] = 0
  count_exceeded (budget_exceeded n s b p ∷ es) = suc (count_exceeded es)
  count_exceeded (budget_warning n s b t p ∷ es) = count_exceeded es
  count_exceeded (budget_reset n b p ∷ es) = count_exceeded es

  count_exceeded-append :
      (es fs : List (BudgetEvent P))
      → count_exceeded (es ++ fs) ≡ count_exceeded es + count_exceeded fs
  unfolding count_exceeded
  count_exceeded-append [] fs = omega arith
  count_exceeded-append (budget_exceeded n s b p ∷ es) fs =
      omega (arith, count_exceeded-append es fs)
  count_exceeded-append (budget_warning n s b t p ∷ es) fs = count_exceeded-append es fs
  count_exceeded-append (budget_reset n b p ∷ es) fs = count_exceeded-append es fs

  count_exceeded-crossing_events :
      (name : String) (setting : ClientBudgetSetting P) (before after : P.F64)
      → count_exceeded (crossing_events name setting before after)
        ≡ (if crosses P setting.budget_usd before after then 1 else 0)
  unfolding crossing_events count_exceeded
  count_exceeded-crossing_events name setting before after = ground arith

  -- Three nonnegative steps upwards cross a limit at most once in all.
  crosses_once :
      (L : PlatformLaws P) (limit a b c : P.F64)
      → P.le limit limit ≡ true
      → P.le a b ≡ true
      → P.le b c ≡ true
      → (if crosses P limit a b then 1 else 0) + (if crosses P limit b c then 1 else 0)
        ≡ (if crosses P limit a c then 1 else 0)
  crosses_once L limit a b c real ab bc = ground (
    arith,
    L.le_trans limit b c,
    L.lt-not-le a limit,
    L.lt-not-le b limit,
    L.le_lt_trans a b limit,
    L.le_right a b,
    L.lt_or_le b limit,
  )

module _ {P : Platform} (B : Persistence P) where
  -- `record_client_spend` once for each cost: the final state and all events, in order.
  unfoldable pub record_all :
      BudgetState B → String → ℤ → List P.F64 → BudgetState B × List (BudgetEvent P)
  record_all s name now [] = (s, [])
  record_all s name now (cost ∷ costs) =
      let (s', events, task) = record_client_spend B s name cost now in
      let (s'', more) = record_all s' name now costs in (s'', events ++ more)

  -- In memory, with a webhook, and a budget for the client.
  pub record IsWatched (s : BudgetState B) (name : String) (setting : ClientBudgetSetting P)
      : Type 0 where
    pub budgeted : lookup name s.client_budgets ≡ some setting
    pub in_memory : s.persistence ≡ none
    pub notified : s.webhook ≡ true

  module _ (name : String) (setting : ClientBudgetSetting P) (now : ℤ) where
    record_client_spend_step :
        (s : BudgetState B) (cost : P.F64)
        → IsWatched s name setting
        → IsWatched (record_client_spend B s name cost now).0 name setting
          × (count_exceeded (record_client_spend B s name cost now).1 ≡ (
              if crosses P setting.budget_usd
                (tracked B s name (period_key_at setting.period now))
                (P.add (tracked B s name (period_key_at setting.period now)) cost)
              then 1
              else 0))
    unfolding record_client_spend
    record_client_spend_step s cost w =
        let spent = (rolled_spend-tracked B s name (period_key_at setting.period now)).0 in
        let before = (rolled_spend B s name (period_key_at setting.period now)).spent_usd in
        (
          record {
            budgeted = ground (arith, w.budgeted, w.in_memory);
            in_memory = ground (arith, w.budgeted, w.in_memory);
            notified = ground (arith, w.budgeted, w.in_memory, w.notified);
          },
          ground (
            arith,
            w.budgeted,
            w.in_memory,
            w.notified,
            spent,
            count_exceeded-crossing_events name setting before (P.add before cost),
          ),
        )

    -- Costs that are not negative, recorded one after the other in one period for a client with a
    -- budget, with a webhook, without a database and from a spend that is not negative, raise `budget_exceeded` exactly once if the tracked spend was below the budget
    -- before them and is at or over it after them, and never otherwise; and the spend never falls.
    pub record_all_exceeded :
        (L : PlatformLaws P) (costs : List P.F64) (s : BudgetState B)
        → IsWatched s name setting
        → P.le setting.budget_usd setting.budget_usd ≡ true
        → P.le (P.of_nat 0) (tracked B s name (period_key_at setting.period now)) ≡ true
        → All (λ c. P.le (P.of_nat 0) c ≡ true) costs
        → (count_exceeded (record_all s name now costs).1 ≡ (
            if crosses P setting.budget_usd
              (tracked B s name (period_key_at setting.period now))
              (tracked B (record_all s name now costs).0 name (period_key_at setting.period now))
            then 1
            else 0))
          × (P.le
                (tracked B s name (period_key_at setting.period now))
                (tracked B (record_all s name now costs).0 name (period_key_at setting.period now))
              ≡ true)
    unfolding record_all count_exceeded
    record_all_exceeded L [] s w real nonneg paid =
        let a = tracked B s name (period_key_at setting.period now) in
        (ground (arith, L.lt-not-le a setting.budget_usd), L.le_right (P.of_nat 0) a nonneg)
    record_all_exceeded L (cost ∷ costs) s w real nonneg (paid, rest) =
        let k = period_key_at setting.period now in
        let a = tracked B s name k in
        let s' = (record_client_spend B s name cost now).0 in
        let (w', one) = record_client_spend_step s cost w in
        let added =
          (tracked-record_client_spend B s name setting now w.budgeted w.in_memory cost).0 in
        let up = L.add_grows a cost nonneg paid in
        let up' : P.le a (tracked B s' name k) ≡ true = rw added up in
        let (count, more) =
          record_all_exceeded L costs s' w' real (L.le_trans (P.of_nat 0) a _ nonneg up') rest in
        let c = tracked B (record_all s' name now costs).0 name k in
        (
          ground (
            arith,
            one,
            added,
            count,
            count_exceeded-append (record_client_spend B s name cost now).1
                (record_all s' name now costs).1,
            crosses_once L setting.budget_usd a (P.add a cost) c real up (rw added at more),
          ),
          L.le_trans a (tracked B s' name k) c up' more,
        )
