-- ===== src/Server/Admin/Budgets.antt =====
-- What an update of a client leaves in the router's budgets.
use rusty_provider.Prelude.{
  String, Option, none, some, ◌==◌, ◌&&◌, lookup, string_eq, beq_refl, ◌≡◌, arith, Option-cases,
  inl, inr, lookup-insert_self, lookup-remove,
}
use rusty_provider.Prelude.Results.{ok, Result-cases}
use rusty_provider.Platform.{Platform}
use rusty_provider.Budget.Calendar.{BudgetPeriod}
use rusty_provider.Budget.Spend.{
  Persistence, ClientConfig, ClientBudgetSetting, BudgetState, set_client_budget,
}
use rusty_provider.Server.State.{AppState}
use rusty_provider.Server.Auth.{AdminIdentity, in_admin_scope, check_admin_auth}
use rusty_provider.Server.Admin.{
  UpdateClientRequest, ClientProvisionResponse, update_first, changed_client, validate_update,
  update_client, admin_update_client, provision_response, budget_of,
}

-- The setting that a budget and a period make, without a warning threshold.
abbrev pub unwarned : (P : Platform) → Option P.F64 → BudgetPeriod → Option (ClientBudgetSetting P)
unwarned P none period = none
unwarned P (some b) period =
    some (record { budget_usd = b; period = period; warning_threshold = none })

module _ {P : Platform} {B : Persistence P} where
  lookup-set_client_budget :
      (budgets : BudgetState B) (name : String) (budget_usd : Option P.F64) (period : BudgetPeriod)
      → lookup name
          (set_client_budget B budgets name
            (elim budget_usd [ none ↦ none | some b ↦ some (b, period) ])).client_budgets
        ≡ unwarned P budget_usd period
  unfolding set_client_budget
  lookup-set_client_budget budgets name none period =
      ground (arith, lookup-remove name name budgets.client_budgets, beq_refl name)
  lookup-set_client_budget budgets name (some b) period =
      lookup-insert_self name _ budgets.client_budgets

  update_client-budget :
      (header : Option String) (state state' : AppState B) (generated name : String)
      (identity : AdminIdentity) (req : UpdateClientRequest P) (resp : ClientProvisionResponse P)
      → update_client header state generated name identity req ≡ (state', ok resp)
      → lookup name state'.budgets.client_budgets ≡ unwarned P resp.budget_usd resp.budget_period
  unfolding update_client provision_response budget_of
  update_client-budget header state state' generated name identity req resp h =
      elim (Option-cases (
        update_first (λ (c : ClientConfig P). c.name == name && in_admin_scope identity c)
          (changed_client req) state.clients)) [
            | inl nothing ↦ absurd (ground (arith, h, nothing))
            | inr ((updated, clients), found) ↦ ground (
              arith,
              h,
              found,
              lookup-set_client_budget state.budgets name updated.budget_usd updated.budget_period,
            )
          ]

  -- After a successful update of a client, the router enforces the budget and the period that the
  -- response reports, and no warning threshold, whatever the client's own configuration says of one.
  pub admin_update_client-budget :
      (header : Option String) (state state' : AppState B) (generated name : String)
      (req : UpdateClientRequest P) (resp : ClientProvisionResponse P)
      → admin_update_client header state generated name (ok req) ≡ (state', ok resp)
      → lookup name state'.budgets.client_budgets ≡ unwarned P resp.budget_usd resp.budget_period
  unfolding admin_update_client
  admin_update_client-budget header state state' generated name req resp h =
      elim (Result-cases (check_admin_auth state header)) [
        | inr (e, fails) ↦ absurd (ground (arith, h, fails))
        | inl (identity, is) ↦ elim (Option-cases (validate_update req)) [
          | inr (e, invalid) ↦ absurd (ground (arith, h, is, invalid))
          | inl valid ↦
              update_client-budget header state state' generated name identity req resp
                (ground (arith, h, is, valid))
        ]
      ]
