-- ===== src/Budget/Spend.antt =====
-- Client budgets: the settings of `crates/router/src/client_budget.rs` and the methods of `Router`
-- in `crates/router/src/lib.rs` that keep them. The shared database is a parameter; webhook
-- deliveries are the events that a method returns.
pub mod Laws
pub mod Crossing
use rusty_provider.Prelude.{
  ℕ, String, Bool, true, false, List, [], ◌∷◌, ◌++◌, Option, none, some, Map, lookup, insert,
  remove, unwrap_or, if◌then◌else◌, ◌&&◌, string_eq,
}
use rusty_provider.Prelude.Int.{ℤ, pos, eqb_ℤ}
use rusty_provider.Prelude.Results.{Result, ok, err}
use rusty_provider.Platform.{Platform}
use rusty_provider.Budget.Calendar.{BudgetPeriod, period_key_at}

-- The operations of the persistence backend that client budgets use, and the state behind them.
pub record Persistence (P : Platform) : Type 1 where
  pub Store : Type 0
  pub client_spend : Store → String → Result (Option (ℤ × P.F64)) String
  pub record_client_spend : Store → String → ℤ → P.F64 → Store
  pub reset_client_spend : Store → String → ℤ → Store

pub data ClientRole : Type 0 where
  member admin : ClientRole

module _ (P : Platform) where
  pub record ClientConfig : Type 0 where
    pub name : String
    pub api_key_env : String
    pub requests_per_minute : ℕ
    pub budget_usd : Option P.F64
    pub budget_period : BudgetPeriod
    pub budget_warning_threshold : Option P.F64
    pub organization : Option String
    pub workspace : Option String
    pub role : ClientRole

  pub record ClientBudgetSetting : Type 0 where
    pub budget_usd : P.F64
    pub period : BudgetPeriod
    pub warning_threshold : Option P.F64

  pub record SpendState : Type 0 where
    pub period_key : ℤ
    pub spent_usd : P.F64

  -- The webhook's events.
  pub data BudgetEvent : Type 0 where
    budget_exceeded : String → (spent budget : P.F64) → BudgetPeriod → BudgetEvent
    budget_warning : String → (spent budget threshold : P.F64) → BudgetPeriod → BudgetEvent
    budget_reset : String → P.F64 → BudgetPeriod → BudgetEvent

  pub record ClientBudgetExceeded : Type 0 where
    pub spent_usd : P.F64
    pub budget_usd : P.F64

  pub record ClientSpendStatus : Type 0 where
    pub spent_usd : P.F64
    pub budget_usd : P.F64
    pub period : BudgetPeriod

-- `before < limit && after >= limit`
abbrev pub crosses : (P : Platform) → P.F64 → P.F64 → P.F64 → Bool
crosses P limit before after = P.lt before limit && P.le limit after

module _ {P : Platform} where
  unfoldable pub roll_period_if_needed : SpendState P → ℤ → SpendState P
  roll_period_if_needed state current_key =
      if eqb_ℤ state.period_key current_key
      then state
      else record { period_key = current_key; spent_usd = P.of_nat 0 }

  unfoldable pub insert_clients :
      List (ClientConfig P)
      → Map String (ClientBudgetSetting P)
      → Map String (ClientBudgetSetting P)
  insert_clients [] m = m
  insert_clients (c ∷ cs) m = insert_clients cs (elim c.budget_usd [
    | none ↦ m
    | some budget_usd ↦
        insert c.name
          (record {
            budget_usd = budget_usd;
            period = c.budget_period;
            warning_threshold = c.budget_warning_threshold;
          })
          m
  ])

  unfoldable pub settings_from_clients : List (ClientConfig P) → Map String (ClientBudgetSetting P)
  unfolding insert_clients
  settings_from_clients clients = insert_clients clients []

  unfoldable pub warning_amount : ClientBudgetSetting P → Option P.F64
  warning_amount setting = elim setting.warning_threshold [
    | none ↦ none
    | some threshold ↦ some (P.mul threshold setting.budget_usd)
  ]

  -- The two notifications of `record_client_spend`.
  unfoldable pub exceeded_events :
      String → ClientBudgetSetting P → P.F64 → P.F64 → List (BudgetEvent P)
  exceeded_events name setting before after =
      if crosses P setting.budget_usd before after
      then budget_exceeded name after setting.budget_usd setting.period ∷ []
      else []

  unfoldable pub warning_events :
      String → ClientBudgetSetting P → P.F64 → P.F64 → List (BudgetEvent P)
  warning_events name setting before after = elim setting.warning_threshold [
    | none ↦ []
    | some threshold ↦
        if crosses P (P.mul threshold setting.budget_usd) before after
        then budget_warning name after setting.budget_usd threshold setting.period ∷ []
        else []
  ]

  unfoldable pub crossing_events :
      String → ClientBudgetSetting P → P.F64 → P.F64 → List (BudgetEvent P)
  unfolding exceeded_events warning_events
  crossing_events name setting before after =
      exceeded_events name setting before after ++ warning_events name setting before after

module _ {P : Platform} (B : Persistence P) where
  -- The fields of `Router` that client budgets use; `webhook` is whether one is configured.
  pub record BudgetState : Type 0 where
    pub client_budgets : Map String (ClientBudgetSetting P)
    pub client_spend : Map String (SpendState P)
    pub persistence : Option B.Store
    pub webhook : Bool

  -- The task that `record_client_spend` spawns: it reads the spend back later.
  pub record ReadBack : Type 0 where
    pub client_name : String
    pub setting : ClientBudgetSetting P
    pub current_key : ℤ
    pub cost_usd : P.F64

  -- The in-memory entry of a client, rolled to the current period.
  unfoldable pub rolled_spend : BudgetState → String → ℤ → SpendState P
  unfolding roll_period_if_needed
  rolled_spend s name current_key =
      roll_period_if_needed
        (unwrap_or (lookup name s.client_spend)
          (record { period_key = pos 0; spent_usd = P.of_nat 0 }))
        current_key

  -- The stored spend counts only if its period is the current one; a failed read counts as none.
  unfoldable pub stored_spend : B.Store → String → ℤ → P.F64
  stored_spend store name current_key = elim (B.client_spend store name) [
    | err e ↦ P.of_nat 0
    | ok none ↦ P.of_nat 0
    | ok (some (key, spent)) ↦ if eqb_ℤ key current_key then spent else P.of_nat 0
  ]

  unfoldable pub spent_usd_for :
      BudgetState → String → ClientBudgetSetting P → ℤ → BudgetState × P.F64
  unfolding rolled_spend stored_spend
  spent_usd_for s name setting now =
      let current_key = period_key_at setting.period now in
      elim s.persistence [
        | some store ↦ (s, stored_spend store name current_key)
        | none ↦
            let state = rolled_spend s name current_key in
            (record s { client_spend = insert name state s.client_spend }, state.spent_usd)
      ]

  unfoldable pub check_client_budget :
      BudgetState → String → ℤ → BudgetState × Result (Unit {0}) (ClientBudgetExceeded P)
  check_client_budget s name now = elim (lookup name s.client_budgets) [
    | none ↦ (s, ok tt)
    | some setting ↦
        let (s', spent) = spent_usd_for s name setting now in
        (
          s',
          if P.le setting.budget_usd spent
              then err (record { spent_usd = spent; budget_usd = setting.budget_usd })
              else ok tt,
        )
  ]

  unfoldable pub client_spend_status :
      BudgetState → String → ℤ → BudgetState × Option (ClientSpendStatus P)
  client_spend_status s name now = elim (lookup name s.client_budgets) [
    | none ↦ (s, none)
    | some setting ↦
        let (s', spent) = spent_usd_for s name setting now in
        (
          s',
          some (record {
            spent_usd = spent;
            budget_usd = setting.budget_usd;
            period = setting.period;
          }),
        )
  ]

  -- The new state, the events, and whether the client has a budget.
  unfoldable pub reset_client_spend :
      BudgetState → String → ℤ → BudgetState × List (BudgetEvent P) × Bool
  reset_client_spend s name now = elim (lookup name s.client_budgets) [
    | none ↦ (s, [], false)
    | some setting ↦
        let current_key = period_key_at setting.period now in
        let s' : BudgetState = elim s.persistence [
          | some store ↦ record s {
            persistence = some (B.reset_client_spend store name current_key);
          }
          | none ↦ record s {
            client_spend =
                insert name (record { period_key = current_key; spent_usd = P.of_nat 0 })
                  s.client_spend;
          }
        ] in
        let events =
          if s.webhook then budget_reset name setting.budget_usd setting.period ∷ [] else [] in
        (s', events, true)
  ]

  -- The new state, the events sent at once, and the task that is spawned.
  unfoldable pub record_client_spend :
      BudgetState → String → P.F64 → ℤ → BudgetState × List (BudgetEvent P) × Option ReadBack
  record_client_spend s name cost now = elim (lookup name s.client_budgets) [
    | none ↦ (s, [], none)
    | some setting ↦
        let current_key = period_key_at setting.period now in
        elim s.persistence [
          | some store ↦
              let task =
                if s.webhook
                then some (record {
                  client_name = name;
                  setting = setting;
                  current_key = current_key;
                  cost_usd = cost;
                })
                else none in
              (
                record s { persistence = some (B.record_client_spend store name current_key cost) },
                [],
                task,
              )
          | none ↦
              let state = rolled_spend s name current_key in
              let before = state.spent_usd in
              let after = P.add before cost in
              (
                record s {
                  client_spend = insert name (record state { spent_usd = after }) s.client_spend;
                },
                if s.webhook then crossing_events name setting before after else [],
                none,
              )
        ]
  ]

  -- The spawned task, against the database as it finds it.
  unfoldable pub read_back : ReadBack → B.Store → List (BudgetEvent P)
  read_back task store = elim (B.client_spend store task.client_name) [
    | err e ↦ []
    | ok none ↦ []
    | ok (some (key, spent)) ↦
        if eqb_ℤ key task.current_key
        then crossing_events task.client_name task.setting (P.sub spent task.cost_usd) spent
        else []
  ]

  unfoldable pub set_client_budget :
      BudgetState → String → Option (P.F64 × BudgetPeriod) → BudgetState
  set_client_budget s name none = record s { client_budgets = remove name s.client_budgets }
  set_client_budget s name (some (budget_usd, period)) = record s {
    client_budgets =
        insert name (record { budget_usd = budget_usd; period = period; warning_threshold = none })
          s.client_budgets;
  }

  unfoldable pub remove_client : BudgetState → String → BudgetState
  remove_client s name = record s {
    client_budgets = remove name s.client_budgets;
    client_spend = remove name s.client_spend;
  }
