-- ===== src/Cashier/Accounts.antt =====
-- What the statements of src/clubs/services/buyout-request.service.ts that settle a player do to
-- the balances of an account.
use poker_crm_backend.Base.{ℕ, ◌≡◌, ◌≤◌, false, some, List, inl, inr}
use poker_crm_backend.Base.Int.{ℤ, pos, ◌+ℤ◌, ◌-ℤ◌, ◌≤ℤ◌, int_laws, ltb_ℤ_cases}
use poker_crm_backend.Base.Text.{Text}
use poker_crm_backend.Entities.{Db, Transaction, GameType}
use poker_crm_backend.Ledger.{
  wallet_balance, credit_balance, session_chips, is_repayment, wallet_case, credit_case, chips_case,
}
use poker_crm_backend.Ledger.Balances.{
  wallet_balance_row, credit_balance_row, session_chips_row, KeepsOthers, KeepsOthers-refl,
  KeepsOthers-row,
}
use poker_crm_backend.Cashier.Settlement.{return_chips, settle_credit}

-- The wallet takes in the chips and pays the credit owed, the credit line is cleared, and the chips
-- are off the table.
pub record IsSettled (club player since : ℕ) (amount owed : ℤ) (ts ts' : List Transaction)
    : Type 0 where
  pub wallet : wallet_balance club player ts' ≡ wallet_balance club player ts +ℤ amount -ℤ owed
  pub credit : credit_balance club player ts' ≡ credit_balance club player ts -ℤ owed
  pub chips : session_chips club player since ts' ≡ session_chips club player since ts -ℤ amount

module _ (club player : ℕ) (name : Text) (amount owed : ℤ) (game : GameType) (out : Text)
    (note : ℤ → Text) (now : ℕ) (db : Db) where
  abbrev settled : Db
  settled =
      settle_credit club player name owed game note now
        (return_chips club player name amount game out now db)

  pub settled-IsSettled :
      (since : ℕ)
      → since ≤ now
      → pos 0 ≤ℤ owed
      → is_repayment (some (note owed)) ≡ false
      → IsSettled club player since amount owed db.ledger settled.ledger
  unfolding settle_credit return_chips wallet_case credit_case chips_case
  settled-IsSettled since h nonneg settles = elim (ltb_ℤ_cases (pos 0) owed) [
    | inl (e, _) ↦ rw e (record {
      wallet = rw (wallet_balance_row, wallet_balance_row, settles) (omega int_laws);
      credit = rw (credit_balance_row, credit_balance_row) (omega int_laws);
      chips = simp (session_chips_row, h) (omega int_laws);
    })
    | inr (e, none_owed) ↦ rw e (record {
      wallet = rw wallet_balance_row (omega int_laws);
      credit = rw credit_balance_row (omega int_laws);
      chips = rw (session_chips_row, h) (omega int_laws);
    })
  ]

  pub settled-KeepsOthers : KeepsOthers club player db.ledger settled.ledger
  unfolding settle_credit return_chips
  settled-KeepsOthers = elim (ltb_ℤ_cases (pos 0) owed) [
    | inl (e, _) ↦ rw e (KeepsOthers-row _ _ (KeepsOthers-row _ _ (KeepsOthers-refl db.ledger)))
    | inr (e, _) ↦ rw e (KeepsOthers-row _ _ (KeepsOthers-refl db.ledger))
  ]
