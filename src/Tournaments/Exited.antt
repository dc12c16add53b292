-- ===== src/Tournaments/Exited.antt =====
-- The money of exitTournamentPlayer of src/clubs/services/tournaments.service.ts.
use poker_crm_backend.Base.{ℕ, ◌≤◌, ◌≡◌, refl, ◌∙◌, false, Option, some, List, inl, inr}
use poker_crm_backend.Base.Int.{ℤ, pos, ◌-ℤ◌, ◌≤ℤ◌, max_ℤ, min_ℤ, int_laws, bound_laws, ltb_ℤ_cases}
use poker_crm_backend.Base.Text.{Text}
use poker_crm_backend.Entities.{Db, Player}
use poker_crm_backend.Ledger.{
  wallet_balance, credit_balance, session_chips, wallet_case, credit_case, chips_case, is_repayment,
}
use poker_crm_backend.Ledger.Balances.{
  wallet_balance_row, credit_balance_row, session_chips_row, KeepsOthers, KeepsOthers-refl,
  KeepsOthers-row,
}
use poker_crm_backend.Tournaments.{Tournament}
use poker_crm_backend.Tournaments.Exit.{adjust_wallet, settle_from, exit_debit_note, final_wallet}
use poker_crm_backend.Entities.Ledger.{Transaction}

-- The wallet stands at an amount; credit, chips and every other account are as they were.
pub record StandsAt (club player since : ℕ) (amount : ℤ) (ts ts' : List Transaction) : Type 0 where
  pub wallet : wallet_balance club player ts' ≡ amount
  pub credit : credit_balance club player ts' ≡ credit_balance club player ts
  pub chips : session_chips club player since ts' ≡ session_chips club player since ts
  pub keeps_others : KeepsOthers club player ts ts'

pub adjust_wallet-StandsAt :
    (t : Tournament) (club since : ℕ) (p : Player) (desired : ℤ) (notes : Option Text) (now : ℕ)
    (db : Db)
    → since ≤ now
    → StandsAt club p.id since desired db.ledger
        (adjust_wallet t club p desired notes now db).ledger
unfolding adjust_wallet wallet_case credit_case chips_case
adjust_wallet-StandsAt t club since p desired notes now db late =
    let delta = desired -ℤ wallet_balance club p.id db.ledger in
    elim (ltb_ℤ_cases (pos 0) delta) [
      | inl (e, _) ↦ rw e record {
        wallet = wallet_balance_row _ _ _ _ _ _ _ _ _ db.ledger ∙ omega int_laws;
        credit = credit_balance_row _ _ _ _ _ _ _ _ _ db.ledger ∙ omega int_laws;
        chips = session_chips_row _ _ _ _ _ _ _ _ _ db.ledger since late ∙ omega int_laws;
        keeps_others = KeepsOthers-row db.ledger db.ledger (KeepsOthers-refl db.ledger);
      }
      | inr (e, le) ↦ elim (ltb_ℤ_cases delta (pos 0)) [
        | inl (e', _) ↦
            rw (e, e')
              record {
                wallet = wallet_balance_row _ _ _ _ _ _ _ _ _ db.ledger ∙ omega int_laws;
                credit = credit_balance_row _ _ _ _ _ _ _ _ _ db.ledger ∙ omega int_laws;
                chips = session_chips_row _ _ _ _ _ _ _ _ _ db.ledger since late ∙ omega int_laws;
                keeps_others = KeepsOthers-row db.ledger db.ledger (KeepsOthers-refl db.ledger);
              }
        | inr (e', ge) ↦
            rw (e, e')
              record {
                wallet = omega int_laws;
                credit = refl;
                chips = refl;
                keeps_others = KeepsOthers-refl db.ledger;
              }
      ]
    ]

-- What the exit takes from the final amount for the credit that the player owes.
abbrev pub exit_payment : ℤ → ℤ → ℤ
exit_payment balance credit = min_ℤ (max_ℤ (pos 0) credit) (final_wallet balance)

-- The wallet stands at the final amount less the payment, and the credit falls by the payment.
pub record LeavesWith (club player since : ℕ) (balance : ℤ) (ts ts' : List Transaction)
    : Type 0 where
  pub wallet :
      wallet_balance club player ts'
      ≡ final_wallet balance -ℤ exit_payment balance (credit_balance club player ts)
  pub credit :
      credit_balance club player ts'
      ≡ credit_balance club player ts -ℤ exit_payment balance (credit_balance club player ts)
  pub chips : session_chips club player since ts' ≡ session_chips club player since ts
  pub keeps_others : KeepsOthers club player ts ts'

module _ (t : Tournament) (club since : ℕ) (p : Player) (balance : ℤ) (now : ℕ) (db : Db)
    (ts : List Transaction) (late : since ≤ now)
    (stands : StandsAt club p.id since (final_wallet balance) ts db.ledger) where
  abbrev due : ℤ
  due = exit_payment balance (credit_balance club p.id db.ledger)

  same_due : exit_payment balance (credit_balance club p.id ts) ≡ due
  same_due = rw stands.credit refl

  nothing_due : due ≤ℤ pos 0 → LeavesWith club p.id since balance ts db.ledger
  nothing_due none_due = record {
    wallet = rw same_due (stands.wallet ∙ omega bound_laws);
    credit = rw same_due (stands.credit ∙ omega bound_laws);
    chips = stands.chips;
    keeps_others = stands.keeps_others;
  }

  pub settle_from-LeavesWith :
      is_repayment (some (exit_debit_note t)) ≡ false
      → LeavesWith club p.id since balance ts
          (settle_from t club p (final_wallet balance) now db).ledger
  unfolding settle_from wallet_case credit_case chips_case
  settle_from-LeavesWith counts =
      let owed = max_ℤ (pos 0) (credit_balance club p.id db.ledger) in
      elim (ltb_ℤ_cases (pos 0) owed) [
        | inl (e, _) ↦ elim (ltb_ℤ_cases (pos 0) due) [
          | inl (e', _) ↦
              rw (e, e')
                record {
                  wallet =
                      wallet_balance_row _ _ _ _ _ _ _ _ _ db.ledger
                      ∙ rw (counts, stands.wallet, same_due) (omega int_laws);
                  credit =
                      credit_balance_row _ _ _ _ _ _ _ _ _ db.ledger
                      ∙ rw (same_due, stands.credit) (omega int_laws);
                  chips =
                      session_chips_row _ _ _ _ _ _ _ _ _ db.ledger since late
                      ∙ rw stands.chips (omega int_laws);
                  keeps_others = KeepsOthers-row ts db.ledger stands.keeps_others;
                }
          | inr (e', le) ↦ rw (e, e') (nothing_due le)
        ]
        | inr (e, le) ↦ rw e (nothing_due (omega bound_laws))
      ]
