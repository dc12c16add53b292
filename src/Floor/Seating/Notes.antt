-- ===== src/Floor/Seating/Notes.antt =====
-- Which of the notes that assignSeat of src/clubs/services/waitlist-seating.service.ts writes carry
-- the marker of a paired row.
use poker_crm_backend.Base.{
  ℕ, ◌≡◌, refl, arith, true, false, Option, none, some, ◌++◌, Bool-cases, inl, inr,
}
use poker_crm_backend.Base.Int.{ℤ}
use mathlib.Core.List.{append_assoc}
use poker_crm_backend.Base.Text.{codes, Lacks, lower, has}
use poker_crm_backend.Ledger.{has_marker}
use poker_crm_backend.Ledger.Balances.{has_marker_absent}
use poker_crm_backend.Floor.Format.{NumberFormat, plain-Lacks}
use poker_crm_backend.Floor.Seating.Opening.{seat_text}
use poker_crm_backend.Floor.Format.{fixed_text-Lacks, int_text-Lacks}
use poker_crm_backend.Base.Text.{has-append, lower-append}
use poker_crm_backend.Floor.Seating.Opening.{cash_note, pair_note, place_text}
use poker_crm_backend.Ledger.Balances.{has_marker_pasted}
use poker_crm_backend.Base.{◌==◌}
use poker_crm_backend.Entities.{Table}

pub seat_text-Lacks : (fmt : NumberFormat) (seat : Option ℕ) → Lacks b'w' (seat_text fmt seat)
unfolding seat_text has lower
seat_text-Lacks fmt none = refl
seat_text-Lacks fmt (some s) = elim (Bool-cases (s == 0)) [
  | inl e ↦ rw e refl
  | inr e ↦ rw e (plain-Lacks b'w' (fmt.int_text s) (omega arith) (fmt.int_text_plain s))
]

-- The cash row of a seating is not marked, and the row that is paired with credit is.
pub cash_note-unmarked :
    (fmt : NumberFormat) (t : Table) (seat : Option ℕ) (a : ℤ)
    → has_marker (some (cash_note fmt t seat a)) ≡ false
unfolding cash_note has lower
cash_note-unmarked fmt t seat a = has_marker_absent (cash_note fmt t seat a) (
    simp (
      append_assoc,
      lower-append,
      has-append,
      int_text-Lacks fmt b'w' t.table_number (omega arith),
      seat_text-Lacks fmt seat,
      fixed_text-Lacks fmt b'w' a (omega arith),
    ))

pub pair_note-marked :
    (fmt : NumberFormat) (t : Table) (seat : Option ℕ) (a : ℤ)
    → has_marker (some (pair_note fmt t seat a)) ≡ true
unfolding pair_note
pair_note-marked fmt t seat a =
    has_marker_pasted
      (codes "Table buy-in — credit line to table — Table "
        ++ (place_text fmt t seat ++ codes " ("))
      (codes ") — pairs with credit applied on join ₹" ++ fmt.fixed_text a)
