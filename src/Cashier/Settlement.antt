-- ===== src/Cashier/Settlement.antt =====
-- The statements of src/clubs/services/buyout-request.service.ts that its operations share, and the
-- notes of the rows that they insert.
use poker_crm_backend.Base.{
  ℕ, ◌-◌, Bool, Option, none, some, List, [], ◌++◌, ◌&&◌, ◌==◌, eq_opt, if◌then◌else◌,
}
use poker_crm_backend.Base.Int.{ℤ, pos, ltb_ℤ, max_ℤ}
use poker_crm_backend.Base.Text.{Text, codes, is_empty, trim, take_text, no_bars}
use poker_crm_backend.Base.Rows.{find?, update_where}
use poker_crm_backend.Entities.{
  Db, Table, Player, WaitlistEntry, WaitlistStatus, TransactionType, GameType, poker, game_of,
  BuyOutRequest, RequestStatus, is_seated, completed_row, post,
}
use poker_crm_backend.Ledger.{credit_balance}
use poker_crm_backend.Floor.Format.{NumberFormat, opt_text}
use poker_crm_backend.Floor.Tables.{has_number}
use poker_crm_backend.Floor.Seating.Opening.{seat_text}

-- A value of JavaScript that stands for an amount: a number, or the text of one.
pub data JsAmount : Type 0 where
  as_number : ℤ → JsAmount
  as_string : ℤ → JsAmount

-- `typeof amount === 'number' && !isNaN(amount) ? amount : 0`
unfoldable pub final_amount : JsAmount → ℤ
final_amount (as_number a) = a
final_amount (as_string a) = pos 0

unfoldable pub is_buyout : ℕ → ℕ → BuyOutRequest → Bool
is_buyout club id r = r.id == id && r.club_id == club

-- The name of a player, of any club.
unfoldable pub player_name_of : ℕ → List Player → Text
player_name_of id players = elim (find? (λ (p : Player). p.id == id) players) [
  | none ↦ codes "Unknown Player"
  | some p ↦ p.name
]

-- The game of the table with the number, where the request names one.
unfoldable pub numbered_game : ℕ → Option ℕ → List Table → GameType
numbered_game club none tables = poker
numbered_game club (some n) tables = elim (find? (has_number club n) tables) [
  | none ↦ poker
  | some t ↦ game_of t.table_type
]

-- `Math.max(0, total)` of CREDIT_BALANCE_SQL.
unfoldable pub credit_owed : ℕ → ℕ → Db → ℤ
credit_owed club player db = max_ℤ (pos 0) (credit_balance club player db.ledger)

-- `INSERT … 'Table Buy Out'`: the chips go back to the wallet.
unfoldable pub return_chips : ℕ → ℕ → Text → ℤ → GameType → Text → ℕ → Db → Db
return_chips club player name amount game note now =
    post (completed_row club player name amount TransactionType.table_buy_out game note now)

-- `if (creditOwed > 0) INSERT … 'Debit'`: the whole credit is settled.
unfoldable pub settle_credit : ℕ → ℕ → Text → ℤ → GameType → (ℤ → Text) → ℕ → Db → Db
settle_credit club player name owed game note now db =
    if ltb_ℤ (pos 0) owed
    then post (completed_row club player name owed TransactionType.debit game (note owed) now) db
    else db

-- `SET status = 'CANCELLED', cancelled_at = NOW(), table_number = NULL, seated_at = NULL, …`
unfoldable pub closed_entry : ℕ → WaitlistEntry → WaitlistEntry
closed_entry now e = record e {
  status = WaitlistStatus.cancelled;
  table_number = none;
  assigned_seat = none;
  seated_at = none;
  cancelled_at = some now;
  seated_by = none;
}

-- `WHERE player_id = $1 AND club_id = $2 AND status = 'SEATED'`
unfoldable pub seats_player : ℕ → ℕ → WaitlistEntry → Bool
seats_player club player e =
    eq_opt e.player_id (some player) && e.club_id == club && is_seated e.status

unfoldable pub close_entries : (WaitlistEntry → Bool) → ℕ → Db → Db
close_entries p now db = record db { entries = update_where p (closed_entry now) db.entries }

-- `SET current_seats = GREATEST(0, current_seats - 1) WHERE club_id = $1 AND table_number = $2`
unfoldable pub one_seat_less : Table → Table
one_seat_less t = record t { current_seats = t.current_seats - 1 }

unfoldable pub free_one_seat : ℕ → Option ℕ → Db → Db
free_one_seat club none db = db
free_one_seat club (some n) db = record db {
  tables = update_where (has_number club n) one_seat_less db.tables;
}

unfoldable pub set_buyout : ℕ → (BuyOutRequest → BuyOutRequest) → Db → Db
set_buyout id f db = record db {
  buyout_requests = update_where (λ (o : BuyOutRequest). o.id == id) f db.buyout_requests;
}

unfoldable pub processed_buyout :
    RequestStatus → ℕ → ℕ → Option Text → BuyOutRequest → BuyOutRequest
processed_buyout status user now reason r = record r {
  status = status;
  processed_by = some user;
  processed_at = some now;
  rejection_reason = reason;
}

module _ (fmt : NumberFormat) where
  unfoldable pub buyout_note : Option ℕ → ℤ → Text
  buyout_note n a =
      codes "Table buy-out - Table "
      ++ (opt_text fmt n
          ++ (codes " - ₹" ++ (fmt.amount_text a ++ codes " returned from table to wallet")))

  unfoldable pub exit_note : Option ℕ → ℤ → Text
  exit_note n a =
      codes "Credit settlement on table exit - ₹"
      ++ (fmt.amount_text a ++ (codes " credit repaid (Table " ++ (opt_text fmt n ++ codes ")")))

  unfoldable pub settlement_note : Option ℕ → Option ℕ → ℤ → Text
  settlement_note n seat a =
      codes "Table settlement - Table "
      ++ (opt_text fmt n
          ++ (seat_text fmt seat
              ++ (codes " - ₹" ++ (fmt.amount_text a ++ codes " returned to wallet"))))

  unfoldable pub close_note : Option ℕ → ℤ → Text
  close_note n a =
      codes "Credit settlement on table close - ₹"
      ++ (fmt.amount_text a ++ (codes " credit repaid (Table " ++ (opt_text fmt n ++ codes ")")))

  unfoldable pub staff_note : ℕ → ℤ → Text
  staff_note n a =
      codes "Credit settlement on staff buy-out — ₹"
      ++ (fmt.amount_text a ++ (codes " (Table " ++ (fmt.int_text n ++ codes ")")))

  -- `${noteSuffix}`: the reason without bars, at most 200 characters of it.
  unfoldable pub reason_text : Option Text → Text
  reason_text none = []
  reason_text (some s) =
      if is_empty (trim s) then [] else codes " — " ++ take_text 200 (no_bars (trim s))

  unfoldable pub staff_out_note : ℕ → Option Text → ℤ → Text
  staff_out_note n reason a =
      codes "Buy-out from Table "
      ++ (fmt.int_text n
          ++ (reason_text reason
              ++ (codes " — ₹" ++ (fmt.amount_text a ++ codes " returned from table to wallet"))))
