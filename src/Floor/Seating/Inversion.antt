-- ===== src/Floor/Seating/Inversion.antt =====
-- What a successful assignSeat of waitlist-seating.service.ts has read, checked and written.
use poker_crm_backend.Base.{ℕ, ◌+◌, ◌≤◌, ◌≡◌, arith, true, false, Option, some, List}
use poker_crm_backend.Base.Int.{ℤ}
use poker_crm_backend.Base.Result.{ok, not_found, >>=-eq-ok, or_throw-eq-ok}
use poker_crm_backend.Base.Rows.{find?}
use poker_crm_backend.Entities.{Db, Table, WaitlistEntry, Player, is_seated, is_cancelled}
use poker_crm_backend.Floor.Format.{NumberFormat}
use poker_crm_backend.Floor.Waitlist.{is_entry, get_waitlist_entry, save_entry}
use poker_crm_backend.Floor.Tables.{is_table, get_table, save_table}
use poker_crm_backend.Floor.Seating.Checks.{
  check_request, check_locked, effective_seat, seat_taken, not_open, filled_table, seated_entry,
  table_has_active_staff_session,
}
use poker_crm_backend.Floor.Seating.Opening.{
  OpeningChips, facility_params, least_buy_in, buy_in_cap, opening_chips, post_cash, post_credit,
}
use poker_crm_backend.Floor.Seating.Assign.{is_player, seat_player, assign_seat_locked, assign_seat}

-- The entry is not seated, the table is open and has room for the party, a session runs, and the
-- seat is free.
pub record IsAllowed (club : ℕ) (entry : WaitlistEntry) (table : Table) (seat : Option ℕ)
    (entries : List WaitlistEntry) : Type 0 where
  pub not_seated : is_seated entry.status ≡ false
  pub not_cancelled : is_cancelled entry.status ≡ false
  pub table_open : not_open table.status ≡ false
  pub has_room : table.current_seats + entry.party_size ≤ table.max_seats
  pub session_runs : table_has_active_staff_session table.notes ≡ true
  pub seat_free : seat_taken club table entry seat entries ≡ false

pub check_locked-IsAllowed :
    (club : ℕ) (entry : WaitlistEntry) (table : Table) (seat : Option ℕ)
    (entries : List WaitlistEntry) {r : Unit {0}}
    → check_locked club entry table seat entries ≡ ok r
    → IsAllowed club entry table seat entries
unfolding check_locked
check_locked-IsAllowed club entry table seat entries h = ground arith

-- The rows that a successful transaction has found, and that its checks passed on them.
pub record Assigned (fmt : NumberFormat) (club entry_id table_id seated_by : ℕ)
    (assigned_seat : Option ℕ) (now : ℕ) (db : Db) (r : WaitlistEntry × Db) : Type 0 where
  pub entry : WaitlistEntry
  pub table : Table
  pub player : Player
  pub player_id : ℕ
  pub entry_found : find? (is_entry club entry_id) db.entries ≡ some entry
  pub table_found : find? (is_table club table_id) db.tables ≡ some table
  pub names_player : entry.player_id ≡ some player_id
  pub player_found : find? (is_player club player_id) db.players ≡ some player
  pub allowed : IsAllowed club entry table (effective_seat assigned_seat entry) db.entries
  pub saved :
      seat_player fmt club player table entry (effective_seat assigned_seat entry) seated_by now db
      ≡ ok r

module _ (fmt : NumberFormat) (club entry_id table_id seated_by : ℕ) (assigned_seat : Option ℕ)
    (now : ℕ) where
  pub assign_seat_locked-Assigned :
      (db : Db) {r : WaitlistEntry × Db}
      → assign_seat_locked fmt club entry_id table_id seated_by assigned_seat now db ≡ ok r
      → Assigned fmt club entry_id table_id seated_by assigned_seat now db r
  unfolding assign_seat_locked
  assign_seat_locked-Assigned db h =
      let (entry, he, h1) =
        or_throw-eq-ok (find? (is_entry club entry_id) db.entries) (not_found 0) _ h in
      let (table, ht, h2) =
        or_throw-eq-ok (find? (is_table club table_id) db.tables) (not_found 1) _ h1 in
      let (u, hc, h3) =
        >>=-eq-ok (check_locked club entry table (effective_seat assigned_seat entry) db.entries) _
          h2 in
      let (pid, hp, h4) = or_throw-eq-ok entry.player_id (not_found 2) _ h3 in
      let (player, hq, h5) =
        or_throw-eq-ok (find? (is_player club pid) db.players) (not_found 2) _ h4 in
      record {
        entry = entry;
        table = table;
        player = player;
        player_id = pid;
        entry_found = he;
        table_found = ht;
        names_player = hp;
        player_found = hq;
        allowed = check_locked-IsAllowed club entry table _ db.entries hc;
        saved = h5;
      }

  -- Whatever the first checks read, a successful call is a successful transaction.
  pub assign_seat-locked :
      (before db : Db) {r : WaitlistEntry × Db}
      → assign_seat fmt club entry_id table_id seated_by assigned_seat now before db ≡ ok r
      → assign_seat_locked fmt club entry_id table_id seated_by assigned_seat now db ≡ ok r
  unfolding assign_seat
  assign_seat-locked before db h =
      let (entry, _, h1) = >>=-eq-ok (get_waitlist_entry club entry_id before) _ h in
      let (table, _, h2) = >>=-eq-ok (get_table club table_id before) _ h1 in
      let (_, _, h3) = >>=-eq-ok (check_request entry table) _ h2 in h3

-- The database after a seating.
abbrev pub after_seating :
    NumberFormat → ℕ → Player → Table → WaitlistEntry → Option ℕ → ℕ → ℕ → OpeningChips → Db → Db
after_seating fmt club player table entry seat seated_by now chips db =
    post_credit fmt club player table seat chips.credit now (
      post_cash fmt club player table seat chips.cash now (
        save_entry (seated_entry table seat seated_by now entry)
          (save_table (filled_table entry table) db)))

pub seat_player_saves :
    (fmt : NumberFormat) (club : ℕ) (player : Player) (table : Table) (entry : WaitlistEntry)
    (seat : Option ℕ) (seated_by now : ℕ) (db : Db) {r : WaitlistEntry × Db}
    → seat_player fmt club player table entry seat seated_by now db ≡ ok r
    → (chips : OpeningChips) × (opening_chips
          (facility_params club player db)
          (least_buy_in table)
          (buy_in_cap table)
        ≡ ok chips)
      × (r ≡ (
        seated_entry table seat seated_by now entry,
        after_seating fmt club player table entry seat seated_by now chips db,
      ))
unfolding seat_player
seat_player_saves fmt club player table entry seat seated_by now db h =
    let (chips, hc, h1) =
      >>=-eq-ok
        (opening_chips (facility_params club player db) (least_buy_in table) (buy_in_cap table)) _
        h in
    (chips, hc, cc)

-- The ledger rows of a seating leave the tables and the entries alone.
pub post_tables :
    (fmt : NumberFormat) (club : ℕ) (p : Player) (t : Table) (seat : Option ℕ) (cash credit : ℤ)
    (now : ℕ) (db : Db)
    → let db' =
        post_credit fmt club p t seat credit now (post_cash fmt club p t seat cash now db) in
      (db'.tables ≡ db.tables) × (db'.entries ≡ db.entries)
unfolding post_cash post_credit
post_tables fmt club p t seat cash credit now db = ground arith

-- The tables and the entries after a successful transaction, and the chips that it opened with.
pub seated_rows :
    {fmt : NumberFormat} {club entry_id table_id seated_by : ℕ} {assigned_seat : Option ℕ} {now : ℕ}
    {db : Db} {r : WaitlistEntry × Db}
    (a : Assigned fmt club entry_id table_id seated_by assigned_seat now db r)
    → let seat = effective_seat assigned_seat a.entry in
      (chips : OpeningChips) × (opening_chips
          (facility_params club a.player db)
          (least_buy_in a.table)
          (buy_in_cap a.table)
        ≡ ok chips)
      × (r ≡ (
        seated_entry a.table seat seated_by now a.entry,
        after_seating fmt club a.player a.table a.entry seat seated_by now chips db,
      ))
      × (r.1.tables ≡ (save_table (filled_table a.entry a.table) db).tables)
      × (r.1.entries ≡ (save_entry (seated_entry a.table seat seated_by now a.entry) db).entries)
unfolding save_entry save_table
seated_rows {fmt} {club} {seated_by = by} {assigned_seat} {now} {db} a =
    let seat = effective_seat assigned_seat a.entry in
    let (chips, hc, e) =
      seat_player_saves fmt club a.player a.table a.entry seat by now db a.saved in
    let (tables, entries) = post_tables fmt club a.player a.table seat chips.cash chips.credit now (
      save_entry (seated_entry a.table seat by now a.entry)
        (save_table (filled_table a.entry a.table) db)) in
    (chips, hc, e, rw e tables, rw e entries)
