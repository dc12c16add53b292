-- ===== src/Cashier/BuyOut.antt =====
-- src/clubs/services/buyout-request.service.ts: the approval and rejection of a buy-out request, the
-- settlement of a whole table, and the buy-out that staff enter by hand.
pub mod Settling
pub mod Decided
pub mod Closing
pub mod Manual
pub mod Amount
use poker_crm_backend.Base.{
  ℕ, ◌-◌, Bool, true, false, not, Option, none, some, List, [], ◌∷◌, ◌++◌, ◌&&◌, ◌||◌, ◌==◌, eq_opt,
  is_some, if◌then◌else◌, ◌+◌,
}
use poker_crm_backend.Base.Int.{ℤ, pos, pos_part, ltb_ℤ, max_ℤ}
use poker_crm_backend.Base.Result.{
  Result, ok, err, bad_request, not_found, ◌>>=◌, ◌>>◌, throw_if, or_throw,
}
use poker_crm_backend.Base.Text.{Text, codes, is_empty, trim, take_text, no_bars}
use poker_crm_backend.Base.Rows.{find?, update_where}
use poker_crm_backend.Entities.{
  Db, Table, Player, WaitlistEntry, GameType, poker, game_of, BuyOutRequest, RakeCollection,
  RequestStatus, is_pending_request, is_seated,
}
use poker_crm_backend.Floor.Format.{NumberFormat}
use poker_crm_backend.Floor.Waitlist.{non_empty, non_zero}
use poker_crm_backend.Floor.Tables.{has_number, is_table}
use poker_crm_backend.Cashier.Settlement.{
  JsAmount, as_number, final_amount, is_buyout, player_name_of, numbered_game, credit_owed,
  return_chips, settle_credit, seats_player, close_entries, free_one_seat, set_buyout,
  processed_buyout, buyout_note, exit_note, settlement_note, close_note, staff_note, staff_out_note,
}

-- The amount of an approval: that of the body, or the requested amount or the table balance of the
-- row, as the database driver hands over a column of type NUMERIC.
unfoldable pub approved_amount : (ℤ → JsAmount) → Option ℤ → BuyOutRequest → JsAmount
approved_amount numeric (some a) r = as_number a
approved_amount numeric none r = elim r.requested_amount [
  | some a ↦ numeric a
  | none ↦ elim r.current_table_balance [ some b ↦ numeric b | none ↦ as_number (pos 0) ]
]

-- What an approval answers.
pub record BuyOutResult : Type 0 where
  pub amount : ℤ
  pub credit_settled : ℤ

module _ (fmt : NumberFormat) (numeric : ℤ → JsAmount) where
  -- The statements of approveBuyOutRequest below its checks.
  unfoldable pub approve_row : ℕ → ℕ → BuyOutRequest → ℕ → ℤ → ℕ → ℕ → Db → BuyOutResult × Db
  approve_row club id row player amount user now db =
      let db1 =
        set_buyout id (λ o. processed_buyout RequestStatus.approved user now o.rejection_reason o)
          db in
      let name = player_name_of player db.players in
      let table = non_zero row.table_number in
      let game = numbered_game club table db.tables in
      let owed = credit_owed club player db1 in
      let db2 =
        return_chips club player name amount game (buyout_note fmt row.table_number amount) now
          db1 in
      let db3 = settle_credit club player name owed game (exit_note fmt row.table_number) now db2 in
      let db4 = close_entries (seats_player club player) now db3 in
      (record { amount = amount; credit_settled = owed }, free_one_seat club table db4)

  -- approveBuyOutRequest
  unfoldable pub approve_buyout_request : ℕ → ℕ → Option ℤ → ℕ → ℕ → Db → Result (BuyOutResult × Db)
  approve_buyout_request club id dto_amount user now db = do
    row ← or_throw (find? (is_buyout club id) db.buyout_requests) (not_found 0)
    throw_if (not (is_pending_request row.status)) (bad_request 0)
    player ← or_throw row.player_id (bad_request 1)
    let amount = final_amount (approved_amount numeric dto_amount row)
    throw_if (ltb_ℤ amount (pos 0)) (bad_request 2)
    ok (approve_row club id row player amount user now db)

-- rejectBuyOutRequest
unfoldable pub reject_buyout_request : ℕ → ℕ → Option Text → ℕ → ℕ → Db → Result Db
reject_buyout_request club id reason user now db = do
  _ ← or_throw (find? (is_buyout club id) db.buyout_requests) (not_found 0)
  row ← or_throw (find? (λ (o : BuyOutRequest). o.id == id) db.buyout_requests) (bad_request 0)
  throw_if (not (is_pending_request row.status)) (bad_request 0)
  ok (set_buyout id (processed_buyout RequestStatus.rejected user now (non_empty reason)) db)

-- The table that settleAllPlayersOnTable closes: its number and its game, if the table is there.
unfoldable pub table_number_of : Option Table → Option ℕ
table_number_of none = none
table_number_of (some t) = some t.table_number

unfoldable pub table_game_of : Option Table → GameType
table_game_of none = poker
table_game_of (some t) = game_of t.table_type

unfoldable pub requested_seat_of : Option WaitlistEntry → Option ℕ
requested_seat_of none = none
requested_seat_of (some e) = e.requested_seat

module _ (fmt : NumberFormat) (club : ℕ) (table : Option Table) (now : ℕ) where
  -- One round of the loop of settleAllPlayersOnTable.
  unfoldable pub settle_player : ℕ → ℤ → Db → Db
  unfolding table_number_of table_game_of requested_seat_of
  settle_player player amount db =
      let name = player_name_of player db.players in
      let seat = requested_seat_of (find? (seats_player club player) db.entries) in
      let number = table_number_of table in
      let game = table_game_of table in
      let db1 =
        return_chips club player name amount game (settlement_note fmt number seat amount) now db in
      let owed = credit_owed club player db1 in
      let db2 = settle_credit club player name owed game (close_note fmt number) now db1 in
      close_entries (seats_player club player) now db2

  unfoldable pub settle_players : List (ℕ × ℤ) → Db → Db
  settle_players [] db = db
  settle_players ((player, amount) ∷ rest) db = settle_players rest (settle_player player amount db)

-- `if (rakeAmount && rakeAmount > 0 && tableNumber)`
unfoldable pub record_rake : ℕ → ℕ → Option ℕ → Option ℤ → Option ℕ → ℕ → Db → Db
record_rake club table_id (some number) (some rake) by now db =
    if ltb_ℤ (pos 0) rake && not (number == 0)
    then record db {
      rakes =
          record {
            id = db.next_id;
            club_id = club;
            table_id = table_id;
            table_number = number;
            total_rake_amount = rake;
            collected_by = by;
            collected_at = now;
          }
          ∷ db.rakes;
      next_id = db.next_id + 1;
    }
    else db
record_rake club table_id _ _ by now db = db

-- `SET current_seats = 0 WHERE club_id = $1 AND id = $2`
unfoldable pub clear_seats : ℕ → ℕ → Db → Db
clear_seats club id db = record db {
  tables =
      update_where (is_table club id) (λ (t : Table). record t { current_seats = 0 }) db.tables;
}

-- settleAllPlayersOnTable
unfoldable pub settle_all_players_on_table :
    NumberFormat → ℕ → ℕ → List (ℕ × ℤ) → Option ℤ → Option ℕ → ℕ → Db → Db
settle_all_players_on_table fmt club table_id settlements rake by now db =
    let table = find? (is_table club table_id) db.tables in
    let db1 = settle_players fmt club table now settlements db in
    clear_seats club table_id (record_rake club table_id (table_number_of table) rake by now db1)

-- `status = 'SEATED' AND table_number = $3` of the player
unfoldable pub seats_player_at : ℕ → ℕ → ℕ → WaitlistEntry → Bool
seats_player_at club player number e =
    seats_player club player e && eq_opt e.table_number (some number)

-- The name of a player of the club, or `Unknown Player` where there is none or it is empty.
unfoldable pub club_player_name : ℕ → ℕ → List Player → Text
club_player_name club id players =
    elim (find? (λ (p : Player). p.id == id && p.club_id == club) players) [
      | none ↦ codes "Unknown Player"
      | some p ↦ if is_empty p.name then codes "Unknown Player" else p.name
    ]

-- settleStaffManualTableBuyOut: a blank player id is absent.
unfoldable pub settle_staff_manual_table_buyout :
    NumberFormat → ℕ → Option ℕ → ℤ → ℤ → Option Text → ℕ → Db → Result (BuyOutResult × Db)
settle_staff_manual_table_buyout fmt club dto_player dto_table dto_amount reason now db = do
  let amount = max_ℤ (pos 0) dto_amount
  player ← or_throw dto_player (bad_request 0)
  throw_if (ltb_ℤ dto_table (pos 1)) (bad_request 1)
  let number = pos_part dto_table
  throw_if (not (is_some (find? (seats_player_at club player number) db.entries))) (bad_request 2)
  let name = club_player_name club player db.players
  let game = numbered_game club (some number) db.tables
  let db1 =
      return_chips club player name amount game (staff_out_note fmt number reason amount) now db
  let owed = credit_owed club player db1
  let db2 = settle_credit club player name owed game (staff_note fmt number) now db1
  let db3 = close_entries (seats_player_at club player number) now db2
  ok (record { amount = amount; credit_settled = owed }, free_one_seat club (some number) db3)
