-- ===== src/Transactions/Overrides.antt =====
-- editAnyTransaction of src/clubs/services/financial-overrides.service.ts, with the rows of
-- src/clubs/entities/dealer-cashout.entity.ts and salary-payment.entity.ts. Ids, dates and
-- instants are numbers, and amounts are in ten-thousandths of a rupee.
use poker_crm_backend.Base.{ℕ, Bool, true, Option, none, some, List, ◌∷◌, ◌++◌, ◌&&◌, ◌==◌}
use poker_crm_backend.Base.Int.{ℤ}
use poker_crm_backend.Base.Text.{Text, codes, trim}
use poker_crm_backend.Base.Result.{Result, ok, err, not_found}
use poker_crm_backend.Base.Rows.{find?, update_where}
use poker_crm_backend.Entities.{Db, Transaction}
use poker_crm_backend.Transactions.{is_transaction, save_transaction}
use poker_crm_backend.Transactions.Edits.{kept_original, or_kept}

pub record DealerCashout : Type 0 where
  pub id : ℕ
  pub club_id : ℕ
  pub dealer_id : ℕ
  pub cashout_date : ℕ
  pub amount : ℤ
  pub notes : Option Text
  pub game_type : Option Text
  pub processed_by : Option ℕ
  pub created_at : ℕ

pub data PayPeriod : Type 0 where
  weekly bi_weekly monthly : PayPeriod

pub data PaymentStatus : Type 0 where
  processed paid cancelled : PaymentStatus

pub record SalaryPayment : Type 0 where
  pub id : ℕ
  pub club_id : ℕ
  pub staff_id : ℕ
  pub pay_period : PayPeriod
  pub base_salary : ℤ
  pub overtime_hours : ℤ
  pub overtime_amount : ℤ
  pub deductions : ℤ
  pub gross_amount : ℤ
  pub net_amount : ℤ
  pub payment_date : ℕ
  pub period_start_date : ℕ
  pub period_end_date : ℕ
  pub status : PaymentStatus
  pub notes : Option Text
  pub processed_by : Option ℕ
  pub created_at : ℕ
  pub updated_at : ℕ

-- The tables of the payments to staff.
pub record Payouts : Type 0 where
  pub dealer_cashouts : List DealerCashout
  pub salary_payments : List SalaryPayment

-- What is returned: the row that was saved, of whichever table.
pub data Edited : Type 0 where
  transaction : Transaction → Edited
  cashout : DealerCashout → Edited
  salary : SalaryPayment → Edited

unfoldable pub is_cashout : ℕ → ℕ → DealerCashout → Bool
is_cashout club id c = c.id == id && c.club_id == club

unfoldable pub is_salary : ℕ → ℕ → SalaryPayment → Bool
is_salary club id s = s.id == id && s.club_id == club

unfoldable pub or_empty : Option Text → Text
or_empty none = codes ""
or_empty (some s) = s

-- `${notes || ''}\n[OVERRIDE] ${reason}`.trim()
unfoldable pub override_note : Option Text → Text → Text
override_note notes reason = trim (or_empty notes ++ (10 ∷ codes "[OVERRIDE] " ++ reason))

-- The ledger row with the new amount, whatever its status.
unfoldable pub overridden_row : ℤ → Text → Option ℕ → ℕ → Transaction → Transaction
overridden_row amount reason user now t = record t {
  amount = amount;
  original_amount = kept_original t;
  is_overridden = true;
  override_reason = some reason;
  overridden_by = or_kept user t.overridden_by;
  overridden_at = some now;
  updated_at = now;
}

unfoldable pub save_cashout : DealerCashout → Payouts → Payouts
save_cashout c p = record p {
  dealer_cashouts = update_where (λ (o : DealerCashout). o.id == c.id) (λ _. c) p.dealer_cashouts;
}

unfoldable pub save_salary : SalaryPayment → Payouts → Payouts
save_salary s p = record p {
  salary_payments = update_where (λ (o : SalaryPayment). o.id == s.id) (λ _. s) p.salary_payments;
}

-- The edit of a dealer cashout, or else of a salary payment.
unfoldable pub edit_payout : ℕ → ℕ → ℤ → Text → ℕ → Db → Payouts → Result (Edited × Db × Payouts)
edit_payout club id amount reason now db p = elim (find? (is_cashout club id) p.dealer_cashouts) [
  | some c ↦
      let c' = record c { amount = amount; notes = some (override_note c.notes reason) } in
      ok (cashout c', db, save_cashout c' p)
  | none ↦ elim (find? (is_salary club id) p.salary_payments) [
    | some s ↦
        let s' = record s {
          net_amount = amount;
          notes = some (override_note s.notes reason);
          updated_at = now;
        } in
        ok (salary s', db, save_salary s' p)
    | none ↦ err (not_found 0)
  ]
]

-- editAnyTransaction: the body's amount is a number, which its DTO demands.
unfoldable pub edit_any_transaction :
    ℕ → ℕ → ℤ → Text → Option ℕ → ℕ → Db → Payouts → Result (Edited × Db × Payouts)
edit_any_transaction club id amount reason user now db p =
    elim (find? (is_transaction club id) db.ledger) [
      | some t ↦
          let t' = overridden_row amount reason user now t in
          ok (transaction t', save_transaction t' db, p)
      | none ↦ edit_payout club id amount reason now db p
    ]
