-- ===== src/Cashier/Notes.antt =====
-- Which of the notes that the services write count for the SQL of the balances
-- (src/clubs/entities/financial-transaction.entity.ts): the marker of a paired row, and the phrase
-- of a repayment.
use poker_crm_backend.Base.{ℕ, ◌≡◌, refl, arith, true, false, Option, some, ◌++◌}
use poker_crm_backend.Base.Int.{ℤ}
use mathlib.Core.List.{append_assoc}
use poker_crm_backend.Base.Text.{codes, lower, has}
use poker_crm_backend.Entities.{BuyInRequest}
use poker_crm_backend.Ledger.{has_marker, is_repayment}
use poker_crm_backend.Ledger.Balances.{has_marker_absent, is_repayment_absent}
use poker_crm_backend.Floor.Format.{NumberFormat, opt_text-Lacks}
use poker_crm_backend.Cashier.Settlement.{exit_note, close_note, staff_note}
use poker_crm_backend.Cashier.BuyIn.{table_buyin_note}
use poker_crm_backend.Floor.Format.{amount_text-Lacks, int_text-Lacks}
use poker_crm_backend.Base.Text.{has-append, lower-append}
use poker_crm_backend.Floor.Seating.Notes.{seat_text-Lacks}
use poker_crm_backend.Cashier.CreditRequests.Approval.{approved_pair_note}
use poker_crm_backend.Ledger.Balances.{has_marker_pasted}

pub table_buyin_note-unmarked :
    (fmt : NumberFormat) (r : BuyInRequest) → has_marker (some (table_buyin_note fmt r)) ≡ false
unfolding table_buyin_note has lower
table_buyin_note-unmarked fmt r = has_marker_absent (table_buyin_note fmt r) (
    simp (
      append_assoc,
      lower-append,
      has-append,
      opt_text-Lacks fmt b'w' r.table_number (omega arith),
      seat_text-Lacks fmt r.seat_number,
    ))

-- The notes of the settling debits are no repayments of the credit line.
pub exit_note-settles :
    (fmt : NumberFormat) (n : Option ℕ) (a : ℤ) → is_repayment (some (exit_note fmt n a)) ≡ false
unfolding exit_note has lower
exit_note-settles fmt n a = is_repayment_absent b'y' (exit_note fmt n a) refl (
    simp (
      lower-append,
      has-append,
      opt_text-Lacks fmt b'y' n (omega arith),
      amount_text-Lacks fmt b'y' a (omega arith),
    ))

pub close_note-settles :
    (fmt : NumberFormat) (n : Option ℕ) (a : ℤ) → is_repayment (some (close_note fmt n a)) ≡ false
unfolding close_note has lower
close_note-settles fmt n a = is_repayment_absent b'y' (close_note fmt n a) refl (
    simp (
      lower-append,
      has-append,
      opt_text-Lacks fmt b'y' n (omega arith),
      amount_text-Lacks fmt b'y' a (omega arith),
    ))

pub staff_note-settles :
    (fmt : NumberFormat) (n : ℕ) (a : ℤ) → is_repayment (some (staff_note fmt n a)) ≡ false
unfolding staff_note has lower
staff_note-settles fmt n a = is_repayment_absent b'p' (staff_note fmt n a) refl (
    simp (
      lower-append,
      has-append,
      int_text-Lacks fmt b'p' n (omega arith),
      amount_text-Lacks fmt b'p' a (omega arith),
    ))

pub approved_pair_note-marked :
    (fmt : NumberFormat) (n : ℕ) (a : ℤ) → has_marker (some (approved_pair_note fmt n a)) ≡ true
unfolding approved_pair_note
approved_pair_note-marked fmt n a =
    has_marker_pasted
      (codes "Table buy-in — credit line to table — Table " ++ (fmt.int_text n ++ codes " ("))
      (codes ") — pairs with approved credit ₹" ++ fmt.amount_text a)
