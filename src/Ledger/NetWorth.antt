-- ===== src/Ledger/NetWorth.antt =====
-- The net worth of an account, over the balances of entities/financial-transaction.entity.ts: cash
-- in the wallet and chips on the table, less the credit drawn. The rows that move money between the
-- three leave it alone.
use poker_crm_backend.Base.{
  ℕ, ◌≡◌, ◌≤◌, arith, true, false, some, List, ◌∷◌, leb, Bool-cases, inl, inr,
}
use poker_crm_backend.Base.Int.{ℤ, ◌+ℤ◌, ◌-ℤ◌, int_laws}
use poker_crm_backend.Base.Text.{Text}
use poker_crm_backend.Entities.{Transaction, TransactionType, GameType, completed_row}
use poker_crm_backend.Ledger.{
  sum_rows, is_mine, wallet_case, credit_case, chips_case, wallet_delta, credit_delta, chips_delta,
  wallet_balance, credit_balance, session_chips, has_marker, is_repayment,
}
use poker_crm_backend.Base.{◌∙◌}

unfoldable pub net_worth : ℕ → ℕ → ℕ → List Transaction → ℤ
net_worth club player since ts =
    wallet_balance club player ts
    +ℤ session_chips club player since ts
    -ℤ credit_balance club player ts

-- Every account is worth what it was.
pub record Conserves (since : ℕ) (ts ts' : List Transaction) : Type 0 where
  pub worth : (club player : ℕ) → net_worth club player since ts' ≡ net_worth club player since ts

pub Conserves-trans :
    {since : ℕ} {ts us vs : List Transaction}
    → Conserves since ts us
    → Conserves since us vs
    → Conserves since ts vs
Conserves-trans a b = record { worth = λ c p. b.worth c p ∙ a.worth c p }

-- The row moves money between the wallet, the table and the credit line.
abbrev IsMove : Transaction → Type 0
IsMove t = wallet_delta t +ℤ chips_delta t ≡ credit_delta t

net_worth_move :
    (club player since : ℕ) (t : Transaction) (ts : List Transaction)
    → since ≤ t.created_at
    → IsMove t
    → net_worth club player since (t ∷ ts) ≡ net_worth club player since ts
unfolding net_worth wallet_balance session_chips credit_balance sum_rows
net_worth_move club player since t ts h move =
    let counted : leb since t.created_at ≡ true = ground arith in
    elim (Bool-cases (is_mine club player t)) [
      | inl e ↦ rw (e, counted, ← move) (omega int_laws)
      | inr e ↦ rw e (omega int_laws)
    ]

module _ (club player since : ℕ) (owner_club owner : ℕ) (name : Text) (a : ℤ) (game : GameType)
    (notes : Text) (now id : ℕ) (ts : List Transaction) (late : since ≤ now) where
  abbrev row : TransactionType → Transaction
  row type = completed_row owner_club owner name a type game notes now id

  -- The rows that the services insert, for every account.
  pub net_worth-table_buy_out :
      net_worth club player since (row TransactionType.table_buy_out ∷ ts)
      ≡ net_worth club player since ts
  unfolding wallet_delta chips_delta credit_delta wallet_case chips_case credit_case
  net_worth-table_buy_out = net_worth_move club player since _ ts late (omega int_laws)

  pub net_worth-credit :
      net_worth club player since (row TransactionType.credit ∷ ts) ≡ net_worth club player since ts
  unfolding wallet_delta chips_delta credit_delta wallet_case chips_case credit_case
  net_worth-credit = net_worth_move club player since _ ts late (omega int_laws)

  -- Marked or not, a buy-in at a table moves money.
  pub net_worth-table_buy_in :
      net_worth club player since (row TransactionType.table_buy_in ∷ ts)
      ≡ net_worth club player since ts
  unfolding wallet_delta chips_delta credit_delta wallet_case chips_case credit_case
  net_worth-table_buy_in = elim (Bool-cases (has_marker (some notes))) [
    | inl e ↦ net_worth_move club player since _ ts late (rw e (omega int_laws))
    | inr e ↦ net_worth_move club player since _ ts late (rw e (omega int_laws))
  ]

  -- A debit moves money unless its note makes it a repayment of the credit line.
  pub net_worth-debit :
      is_repayment (some notes) ≡ false
      → net_worth club player since (row TransactionType.debit ∷ ts)
        ≡ net_worth club player since ts
  unfolding wallet_delta chips_delta credit_delta wallet_case chips_case credit_case
  net_worth-debit settles = net_worth_move club player since _ ts late (rw settles (omega int_laws))
