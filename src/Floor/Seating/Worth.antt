-- ===== src/Floor/Seating/Worth.antt =====
-- assignSeat of src/clubs/services/waitlist-seating.service.ts moves money from the wallet and the
-- credit line to the table, and makes none.
use poker_crm_backend.Base.{ℕ, ◌≡◌, ◌≤◌, ◌∙◌, Option}
use poker_crm_backend.Base.Result.{ok}
use poker_crm_backend.Entities.{Db, Table, WaitlistEntry, Player}
use poker_crm_backend.Ledger.NetWorth.{Conserves}
use poker_crm_backend.Floor.Format.{NumberFormat}
use poker_crm_backend.Floor.Waitlist.{save_entry}
use poker_crm_backend.Floor.Tables.{save_table}
use poker_crm_backend.Floor.Seating.Checks.{effective_seat, filled_table, seated_entry}
use poker_crm_backend.Floor.Seating.Opening.{OpeningChips, post_cash}
use poker_crm_backend.Floor.Seating.Assign.{assign_seat}
use poker_crm_backend.Floor.Seating.Inversion.{
  assign_seat-locked, assign_seat_locked-Assigned, seated_rows, after_seating,
}
use poker_crm_backend.Floor.Seating.Posting.{net_worth-post_cash, net_worth-post_credit}

after_seating-Conserves :
    (fmt : NumberFormat) (club : ℕ) (p : Player) (t : Table) (entry : WaitlistEntry)
    (seat : Option ℕ) (by now : ℕ) (c : OpeningChips) (db : Db) (since : ℕ)
    → since ≤ now
    → Conserves since db.ledger (after_seating fmt club p t entry seat by now c db).ledger
unfolding save_entry save_table
after_seating-Conserves fmt club p t entry seat by now c db since late =
    let base =
      save_entry (seated_entry t seat by now entry) (save_table (filled_table entry t) db) in
    record {
      worth = λ club' player'.
          net_worth-post_credit fmt club p t seat c.credit now
            (post_cash fmt club p t seat c.cash now base) club' player' since late
          ∙ net_worth-post_cash fmt club p t seat c.cash now base club' player' since late;
    }

-- A seating leaves the net worth of every account as it was: cash in the wallet and chips since an
-- instant not later than now, less the credit drawn.
pub assign_seat-Conserves :
    (fmt : NumberFormat) (club entry_id table_id by : ℕ) (seat : Option ℕ) (now : ℕ)
    (before db : Db) {r : WaitlistEntry × Db} (since : ℕ)
    → since ≤ now
    → assign_seat fmt club entry_id table_id by seat now before db ≡ ok r
    → Conserves since db.ledger r.1.ledger
assign_seat-Conserves fmt club entry_id table_id by seat now before db {r} since late h =
    let a =
      assign_seat_locked-Assigned fmt club entry_id table_id by seat now db
        (assign_seat-locked fmt club entry_id table_id by seat now before db h) in
    let (chips, _, e, _, _) = seated_rows a in
    rw e (
      after_seating-Conserves fmt club a.player a.table a.entry (effective_seat seat a.entry) by now
        chips db since late)
