-- ===== src/Floor/Seating/Checks.antt =====
-- The checks of assignSeat in waitlist-seating.service.ts, and the rows that it saves.
use poker_crm_backend.Base.{
  ℕ, ◌+◌, Bool, true, false, not, Option, none, some, List, ◌&&◌, ◌||◌, ◌==◌, ltb, leb, eq_opt,
  is_some, if◌then◌else◌,
}
use poker_crm_backend.Base.Result.{Result, bad_request, ◌>>◌, throw_if}
use poker_crm_backend.Base.Text.{Text, codes, contains, lower, trim}
use poker_crm_backend.Base.Rows.{find?}
use poker_crm_backend.Entities.{
  Table, TableStatus, WaitlistEntry, WaitlistStatus, GameType, is_seated, is_cancelled,
  is_available, is_reserved, is_rummy,
}
use poker_crm_backend.Ledger.{notes_text}

-- tableHasActiveStaffSession of src/clubs/table-session.util.ts
unfoldable pub table_has_active_staff_session : Option Text → Bool
table_has_active_staff_session notes =
    let n = lower (trim (notes_text notes)) in
    contains (codes "session started:") n || contains (codes "paused at:") n

-- `table.status !== AVAILABLE && table.status !== RESERVED`
unfoldable pub not_open : TableStatus → Bool
not_open s = not (is_available s) && not (is_reserved s)

-- The checks on the entry and the table that are made before the transaction and again inside it.
unfoldable pub check_open : WaitlistEntry → Table → Result (Unit {0})
unfolding not_open
check_open entry table = do
  throw_if (is_seated entry.status) (bad_request 0)
  throw_if (is_cancelled entry.status) (bad_request 1)
  throw_if (not_open table.status) (bad_request 2)
  throw_if (ltb table.max_seats (table.current_seats + entry.party_size)) (bad_request 3)

-- An entry with no requested game asks for poker.
unfoldable pub wants_rummy : Option GameType → Bool
wants_rummy none = false
wants_rummy (some GameType.poker) = false
wants_rummy (some GameType.rummy) = true

-- The checks before the transaction.
unfoldable pub check_request : WaitlistEntry → Table → Result (Unit {0})
unfolding check_open wants_rummy
check_request entry table = do
  check_open entry table
  let rummy = wants_rummy entry.requested_game_type
  throw_if (rummy && not (is_rummy table.table_type)) (bad_request 4)
  throw_if (not rummy && is_rummy table.table_type) (bad_request 5)
  throw_if (not (is_some entry.player_id)) (bad_request 6)

-- The seat that staff chose, or else the seat that the player asked for.
unfoldable pub effective_seat : Option ℕ → WaitlistEntry → Option ℕ
effective_seat none entry = entry.requested_seat
effective_seat (some s) entry = some s

-- A seated entry of the club at the seat of the table.
unfoldable pub sits_at : ℕ → ℕ → ℕ → WaitlistEntry → Bool
sits_at club number seat e =
    e.club_id == club
    && eq_opt e.table_number (some number)
    && is_seated e.status
    && eq_opt e.assigned_seat (some seat)

-- `occupiedSeat && occupiedSeat.id !== lockedEntry.id`
unfoldable pub is_other : Option WaitlistEntry → ℕ → Bool
is_other none id = false
is_other (some e) id = not (e.id == id)

unfoldable pub seat_taken : ℕ → Table → WaitlistEntry → Option ℕ → List WaitlistEntry → Bool
unfolding sits_at is_other
seat_taken club table entry none entries = false
seat_taken club table entry (some seat) entries =
    is_other (find? (sits_at club table.table_number seat) entries) entry.id

-- The checks inside the transaction, up to the reading of the player's balances.
unfoldable pub check_locked :
    ℕ → WaitlistEntry → Table → Option ℕ → List WaitlistEntry → Result (Unit {0})
unfolding check_open seat_taken
check_locked club entry table seat entries = do
  check_open entry table
  throw_if (not (table_has_active_staff_session table.notes)) (bad_request 7)
  throw_if (seat_taken club table entry seat entries) (bad_request 8)

-- The table and the entry as assignSeat saves them.
unfoldable pub filled_table : WaitlistEntry → Table → Table
filled_table entry table =
    let seats = table.current_seats + entry.party_size in
    record table {
      current_seats = seats;
      status = if leb table.max_seats seats then TableStatus.occupied else TableStatus.available;
    }

unfoldable pub seated_entry : Table → Option ℕ → ℕ → ℕ → WaitlistEntry → WaitlistEntry
seated_entry table seat seated_by now entry = record entry {
  status = WaitlistStatus.seated;
  table_number = some table.table_number;
  assigned_seat = seat;
  seated_at = some now;
  seated_by = some seated_by;
}
