-- ===== src/Budget/Tests.antt =====
-- Examples for budgets.
use rusty_provider.Prelude.{
  ◌+◌, String, none, some, [], ◌∷◌, Map, true, lookup, string_eq, if◌then◌else◌, leb, ◌≡◌, ◌≢◌,
  refl, ◌↔◌, arith,
}
use rusty_provider.Prelude.Int.{ℤ, pos, ◌+ℤ◌, div_euclid}
use rusty_provider.Prelude.Results.{ok, err}
use rusty_provider.Samples.{nat_platform, nat_laws}
use rusty_provider.Budget.Calendar.{BudgetPeriod, monthly, ymd_from_days, period_key_at}
use rusty_provider.Budget.Calendar.Gregorian.{next_day}
use rusty_provider.Budget.Calendar.NextDay.{InRange, ymd_from_days_next}
use rusty_provider.Budget.Calendar.Periods.{period_key_at-monthly_iff}
use rusty_provider.Budget.FreeTiers.{FreeTierSetting, TokenState, record_tokens, saturating_add}
use rusty_provider.Budget.FreeTiers.Laws.{counted, counted-record_tokens}
use rusty_provider.Budget.Spend.{
  Persistence, BudgetState, ClientBudgetSetting, check_client_budget, record_client_spend, crosses,
}
use rusty_provider.Budget.Spend.Laws.{
  tracked, check_client_budget-tracked, tracked-record_client_spend,
}
use rusty_provider.Budget.Spend.Crossing.{count_exceeded, record_all, record_all_exceeded}

in_range : InRange (pos 19_781 +ℤ pos 1)
unfolding ◌+ℤ◌
in_range = (omega arith, omega arith)

-- 2024-02-28 and the day after.
ymd_from_days_next_example :
    ymd_from_days (pos 19_781 +ℤ pos 1) ≡ next_day (ymd_from_days (pos 19_781))
ymd_from_days_next_example = ymd_from_days_next (pos 19_781) (omega arith, omega arith) in_range

-- 2024-01-31 and 2024-02-01.
period_key_at-monthly_iff_example :
    (period_key_at monthly (pos 1_706_659_200) ≡ period_key_at monthly (pos 1_706_745_600)) ↔ (
      ((ymd_from_days (div_euclid (pos 1_706_659_200) 86_400)).year
        ≡ (ymd_from_days (div_euclid (pos 1_706_745_600) 86_400)).year)
      × ((ymd_from_days (div_euclid (pos 1_706_659_200) 86_400)).month
          ≡ (ymd_from_days (div_euclid (pos 1_706_745_600) 86_400)).month))
period_key_at-monthly_iff_example =
    period_key_at-monthly_iff (pos 1_706_659_200) (pos 1_706_745_600)

abbrev setting : FreeTierSetting
setting = record { monthly_free_tokens = 1000; period = monthly }

abbrev tiers : Map String FreeTierSetting
tiers = ("groq/m1", setting) ∷ []

tier : lookup "groq/m1" tiers ≡ some setting
unfolding lookup
tier = refl

counted-record_tokens_example :
    (counted
        (record_tokens tiers [] "groq/m1" 900 (pos 1_704_067_200))
        "groq/m1"
        (period_key_at monthly (pos 1_704_067_200))
      ≡ saturating_add (counted [] "groq/m1" (period_key_at monthly (pos 1_704_067_200))) 900)
    × ((j : String)
        → j ≢ "groq/m1"
        → lookup j (record_tokens tiers [] "groq/m1" 900 (pos 1_704_067_200))
          ≡ lookup {V = TokenState} j [])
counted-record_tokens_example =
    counted-record_tokens tiers [] (pos 1_704_067_200) "groq/m1" 900 setting tier

-- A store that never answers, which no example uses.
abbrev no_store : Persistence nat_platform
no_store = record {
  Store = Unit;
  client_spend = λ s name. err "no database";
  record_client_spend = λ s name key cost. s;
  reset_client_spend = λ s name key. s;
}

-- A client with a budget of 100 that has spent 40.
abbrev budget : ClientBudgetSetting nat_platform
budget = record { budget_usd = 100; period = BudgetPeriod.total; warning_threshold = none }

abbrev books : BudgetState no_store
books = record {
  client_budgets = ("acme", budget) ∷ [];
  client_spend = ("acme", record { period_key = pos 0; spent_usd = 40 }) ∷ [];
  persistence = none;
  webhook = true;
}

acme : lookup "acme" books.client_budgets ≡ some budget
unfolding lookup
acme = refl

abbrev key : ℤ
key = period_key_at BudgetPeriod.total (pos 5)

check_client_budget-tracked_example :
    ((check_client_budget no_store books "acme" (pos 5)).1 ≡ (
      if leb 100 (tracked no_store books "acme" key)
      then err (record { spent_usd = tracked no_store books "acme" key; budget_usd = 100 })
      else ok tt))
    × (tracked no_store (check_client_budget no_store books "acme" (pos 5)).0 "acme" key
        ≡ tracked no_store books "acme" key)
    × ((j : String)
        → j ≢ "acme"
        → lookup j (check_client_budget no_store books "acme" (pos 5)).0.client_spend
          ≡ lookup j books.client_spend)
check_client_budget-tracked_example =
    check_client_budget-tracked no_store books "acme" budget (pos 5) acme refl

tracked-record_client_spend_example :
    (tracked no_store (record_client_spend no_store books "acme" 25 (pos 5)).0 "acme" key
      ≡ tracked no_store books "acme" key + 25)
    × ((j : String)
        → j ≢ "acme"
        → lookup j (record_client_spend no_store books "acme" 25 (pos 5)).0.client_spend
          ≡ lookup j books.client_spend)
tracked-record_client_spend_example =
    tracked-record_client_spend no_store books "acme" budget (pos 5) acme refl 25

nonnegative : leb 0 (tracked no_store books "acme" key) ≡ true
nonnegative = ground arith

-- Three costs that take the spend from 40 over 100.
record_all_exceeded_example :
    (count_exceeded (record_all no_store books "acme" (pos 5) (30 ∷ 50 ∷ 10 ∷ [])).1 ≡ (
      if crosses nat_platform 100 (tracked no_store books "acme" key) (
        tracked no_store
          (record_all no_store books "acme" (pos 5) (30 ∷ 50 ∷ 10 ∷ [])).0
          "acme"
          key)
      then 1
      else 0))
    × (leb (tracked no_store books "acme" key) (
          tracked no_store
            (record_all no_store books "acme" (pos 5) (30 ∷ 50 ∷ 10 ∷ [])).0
            "acme"
            key)
        ≡ true)
record_all_exceeded_example =
    record_all_exceeded no_store "acme" budget (pos 5) nat_laws (30 ∷ 50 ∷ 10 ∷ []) books
      (record { budgeted = acme; in_memory = refl; notified = refl }) refl nonnegative
      (refl, (refl, (refl, tt)))
