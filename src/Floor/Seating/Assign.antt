-- ===== src/Floor/Seating/Assign.antt =====
-- assignSeat and unseatPlayer of waitlist-seating.service.ts.
use poker_crm_backend.Base.{
  ℕ, ◌-◌, Bool, true, false, Option, none, some, ◌&&◌, ◌==◌, if◌then◌else◌,
}
use poker_crm_backend.Base.Result.{
  Result, ok, bad_request, not_found, ◌>>=◌, ◌>>◌, throw_if, or_throw,
}
use poker_crm_backend.Base.Rows.{find?}
use poker_crm_backend.Entities.{
  Db, Table, TableStatus, WaitlistEntry, WaitlistStatus, Player, is_seated,
}
use poker_crm_backend.Floor.Format.{NumberFormat}
use poker_crm_backend.Floor.Waitlist.{is_entry, get_waitlist_entry, save_entry, non_zero}
use poker_crm_backend.Floor.Tables.{is_table, get_table, save_table, has_number}
use poker_crm_backend.Floor.Seating.Checks.{
  check_request, check_locked, effective_seat, filled_table, seated_entry,
}
use poker_crm_backend.Floor.Seating.Opening.{
  facility_params, least_buy_in, buy_in_cap, opening_chips, post_cash, post_credit,
}

unfoldable pub is_player : ℕ → ℕ → Player → Bool
is_player club id p = p.id == id && p.club_id == club

-- What assignSeat saves once all its checks have passed.
unfoldable pub seat_player :
    NumberFormat
    → ℕ
    → Player
    → Table
    → WaitlistEntry
    → Option ℕ
    → ℕ
    → ℕ
    → Db
    → Result (WaitlistEntry × Db)
seat_player fmt club player table entry seat seated_by now db = do
  chips ← opening_chips (facility_params club player db) (least_buy_in table) (buy_in_cap table)
  let entry' = seated_entry table seat seated_by now entry
  let db' = save_entry entry' (save_table (filled_table entry table) db)
  ok (
    entry',
    post_credit fmt club player table seat chips.credit now
        (post_cash fmt club player table seat chips.cash now db'),
  )

-- The transaction of assignSeat: the rows are read again, under a lock.
unfoldable pub assign_seat_locked :
    NumberFormat → ℕ → ℕ → ℕ → ℕ → Option ℕ → ℕ → Db → Result (WaitlistEntry × Db)
unfolding is_entry is_table is_player effective_seat
assign_seat_locked fmt club entry_id table_id seated_by assigned_seat now db = do
  entry ← or_throw (find? (is_entry club entry_id) db.entries) (not_found 0)
  table ← or_throw (find? (is_table club table_id) db.tables) (not_found 1)
  let seat = effective_seat assigned_seat entry
  check_locked club entry table seat db.entries
  player_id ← or_throw entry.player_id (not_found 2)
  player ← or_throw (find? (is_player club player_id) db.players) (not_found 2)
  seat_player fmt club player table entry seat seated_by now db

-- assignSeat. The first checks read the database `before`; when the locks are held it may have
-- changed to `db`.
unfoldable pub assign_seat :
    NumberFormat → ℕ → ℕ → ℕ → ℕ → Option ℕ → ℕ → Db → Db → Result (WaitlistEntry × Db)
unfolding get_waitlist_entry get_table
assign_seat fmt club entry_id table_id seated_by assigned_seat now before db = do
  entry ← get_waitlist_entry club entry_id before
  table ← get_table club table_id before
  check_request entry table
  assign_seat_locked fmt club entry_id table_id seated_by assigned_seat now db

-- The table that a player leaves.
unfoldable pub vacated_table : WaitlistEntry → Table → Table
vacated_table entry table =
    let seats = table.current_seats - entry.party_size in
    record table {
      current_seats = seats;
      status = if seats == 0 then TableStatus.available else table.status;
    }

-- The entry that unseatPlayer saves: back in the queue, or closed.
unfoldable pub unseated_entry : Bool → ℕ → WaitlistEntry → WaitlistEntry
unseated_entry requeue now entry = record entry {
  status = if requeue then WaitlistStatus.pending else WaitlistStatus.cancelled;
  cancelled_at = if requeue then none else some now;
  table_number = none;
  seated_at = none;
  seated_by = none;
}

unfoldable pub vacate : Option Table → WaitlistEntry → Db → Db
vacate none entry db = db
vacate (some table) entry db = save_table (vacated_table entry table) db

-- unseatPlayer
unfoldable pub unseat_player : ℕ → ℕ → Bool → ℕ → Db → Result (WaitlistEntry × Db)
unfolding get_waitlist_entry non_zero
unseat_player club entry_id requeue now db = do
  entry ← get_waitlist_entry club entry_id db
  throw_if (if is_seated entry.status then false else true) (bad_request 0)
  number ← or_throw (non_zero entry.table_number) (bad_request 1)
  let entry' = unseated_entry requeue now entry
  ok (entry', save_entry entry' (vacate (find? (has_number club number) db.tables) entry db))
