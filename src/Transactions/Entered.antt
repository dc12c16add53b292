-- ===== src/Transactions/Entered.antt =====
-- Every row that create of src/clubs/services/financial-transactions.service.ts accepts: what it
-- says, and what it does to the balances.
use poker_crm_backend.Base.{ℕ, Bool, true, false, List}
use poker_crm_backend.Entities.{Transaction}
use poker_crm_backend.Transactions.{NewTransaction}
use poker_crm_backend.Transactions.Worth.{Counts}
use poker_crm_backend.Transactions.Repayment.{Receives}

-- The change of the balances, with a repayment and without.
abbrev pub Effect :
    Bool → ℕ → ℕ → NewTransaction → Transaction → List Transaction → List Transaction → Type 0
Effect true club since d t ts ts' = Receives club d.player_id since t.amount ts ts'
Effect false club since d t ts ts' = Counts since t ts ts'
