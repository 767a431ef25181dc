-- ===== src/Budget/FreeTiers.antt =====
-- `crates/router/src/free_tiers.rs`: operator-declared free-token budgets, counted per period. Every
-- operation is given the Unix time; `u64` addition saturates as `saturating_add` does.
pub mod Laws
use rusty_provider.Prelude.{
  ℕ, ◌+◌, ◌-◌, ◌^◌, min, String, List, [], ◌∷◌, Option, none, some, Map, lookup, insert, unwrap_or,
  if◌then◌else◌, string_eq,
}
use rusty_provider.Prelude.Int.{ℤ, pos, eqb_ℤ}
use rusty_provider.Budget.Calendar.{BudgetPeriod, period_key_at}

pub record FreeTierEntry : Type 0 where
  pub model : String
  pub monthly_free_tokens : ℕ
  pub period : BudgetPeriod

pub record FreeTierSetting : Type 0 where
  pub monthly_free_tokens : ℕ
  pub period : BudgetPeriod

pub record TokenState : Type 0 where
  pub period_key : ℤ
  pub tokens_used : ℕ

abbrev pub default_token_state : TokenState
default_token_state = record { period_key = pos 0; tokens_used = 0 }

abbrev pub u64_max : ℕ
u64_max = 2 ^ 64 - 1

abbrev pub saturating_add : ℕ → ℕ → ℕ
saturating_add a b = min (a + b) u64_max

-- Collecting into a `HashMap`: the last entry of a model wins.
insert_settings : List FreeTierEntry → Map String FreeTierSetting → Map String FreeTierSetting
insert_settings [] m = m
insert_settings (x ∷ xs) m =
    insert_settings xs
      (insert x.model (record { monthly_free_tokens = x.monthly_free_tokens; period = x.period }) m)

unfoldable pub settings_from_config : List FreeTierEntry → Map String FreeTierSetting
unfolding insert_settings
settings_from_config entries = insert_settings entries []

unfoldable pub roll_tokens : TokenState → ℤ → TokenState
roll_tokens state current_key =
    if eqb_ℤ state.period_key current_key
    then state
    else record { period_key = current_key; tokens_used = 0 }

-- `usage.entry(key).or_default()`, rolled to the current period.
unfoldable pub rolled_state : Map String TokenState → String → ℤ → TokenState
unfolding roll_tokens
rolled_state usage key current_key =
    roll_tokens (unwrap_or (lookup key usage) default_token_state) current_key

unfoldable pub record_tokens :
    Map String FreeTierSetting → Map String TokenState → String → ℕ → ℤ → Map String TokenState
record_tokens settings usage key tokens now = elim (lookup key settings) [
  | none ↦ usage
  | some setting ↦
      let state = rolled_state usage key (period_key_at setting.period now) in
      insert key (record state { tokens_used = saturating_add state.tokens_used tokens }) usage
]

pub record FreeTierStatus : Type 0 where
  pub monthly_free_tokens : ℕ
  pub tokens_used : ℕ
  pub tokens_remaining : ℕ
  pub period : BudgetPeriod

status_of : FreeTierSetting → TokenState → FreeTierStatus
status_of setting state = record {
  monthly_free_tokens = setting.monthly_free_tokens;
  tokens_used = state.tokens_used;
  tokens_remaining = setting.monthly_free_tokens - state.tokens_used;
  period = setting.period;
}

-- The rolled usage, and the status of every configured model.
unfoldable pub status_snapshot :
    Map String FreeTierSetting
    → Map String TokenState
    → ℤ
    → Map String TokenState × Map String FreeTierStatus
unfolding status_of
status_snapshot [] usage now = (usage, [])
status_snapshot ((key, setting) ∷ settings) usage now =
    let state = rolled_state usage key (period_key_at setting.period now) in
    let (usage', statuses) = status_snapshot settings (insert key state usage) now in
    (usage', (key, status_of setting state) ∷ statuses)
