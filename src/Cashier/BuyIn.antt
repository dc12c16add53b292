-- ===== src/Cashier/BuyIn.antt =====
-- approveBuyInRequest and rejectBuyInRequest of src/clubs/services/buyin-request.service.ts.
pub mod Approved
pub mod Decided
use poker_crm_backend.Base.{
  ℕ, Bool, true, false, not, Option, none, some, List, ◌++◌, ◌&&◌, ◌==◌, if◌then◌else◌,
}
use poker_crm_backend.Base.Int.{ℤ, pos, leb_ℤ}
use poker_crm_backend.Base.Result.{
  Result, ok, err, bad_request, not_found, ◌>>=◌, ◌>>◌, throw_if, or_throw,
}
use poker_crm_backend.Base.Text.{Text, codes}
use poker_crm_backend.Base.Rows.{find?, update_where}
use poker_crm_backend.Entities.{
  Db, Table, Player, TransactionType, GameType, poker, game_of, BuyInRequest, RequestStatus,
  is_pending_request, completed_row, post,
}
use poker_crm_backend.Floor.Format.{NumberFormat, opt_text}
use poker_crm_backend.Floor.Waitlist.{or_default, non_empty}
use poker_crm_backend.Floor.Seating.Opening.{seat_text}

-- `WHERE br.id = $1 AND br.club_id = $2`
unfoldable pub is_buyin : ℕ → ℕ → BuyInRequest → Bool
is_buyin club id r = r.id == id && r.club_id == club

-- The row after `UPDATE buyin_requests SET status = …, processed_by = …, processed_at = NOW()`.
unfoldable pub processed : RequestStatus → ℕ → ℕ → Option Text → BuyInRequest → BuyInRequest
processed status user now reason r = record r {
  status = status;
  processed_by = some user;
  processed_at = some now;
  rejection_reason = reason;
}

-- `LEFT JOIN tables t ON t.id = br.table_id`, and the game of that table.
unfoldable pub joined_game : Option ℕ → List Table → GameType
joined_game none tables = poker
joined_game (some id) tables = elim (find? (λ (t : Table). t.id == id) tables) [
  | none ↦ poker
  | some t ↦ game_of t.table_type
]

unfoldable pub buyin_place : NumberFormat → BuyInRequest → Text
buyin_place fmt r = opt_text fmt r.table_number ++ seat_text fmt r.seat_number

unfoldable pub club_buyin_note : NumberFormat → BuyInRequest → Text
unfolding buyin_place
club_buyin_note fmt r =
    codes "Club buy-in - Table " ++ (buyin_place fmt r ++ codes " (approved by staff)")

unfoldable pub table_buyin_note : NumberFormat → BuyInRequest → Text
unfolding buyin_place
table_buyin_note fmt r =
    codes "Table buy-in from club buy-in - Table "
    ++ (buyin_place fmt r ++ codes " (approved by staff)")

-- `UPDATE buyin_requests … WHERE id = $2`
unfoldable pub set_buyin : ℕ → (BuyInRequest → BuyInRequest) → Db → Db
set_buyin id f db = record db {
  buyin_requests = update_where (λ (o : BuyInRequest). o.id == id) f db.buyin_requests;
}

-- approveBuyInRequest: the amount that was approved, and the database. The amount of the body is
-- absent or 0 where the requested amount is taken.
unfoldable pub approve_buyin_request :
    NumberFormat → ℕ → ℕ → Option ℤ → ℕ → ℕ → Db → Result (ℤ × Db)
approve_buyin_request fmt club id dto_amount user now db = do
  row ← or_throw (find? (is_buyin club id) db.buyin_requests) (not_found 0)
  player ← or_throw (find? (λ (p : Player). p.id == row.player_id) db.players) (not_found 0)
  throw_if (not (is_pending_request row.status)) (bad_request 0)
  let amount = or_default dto_amount row.requested_amount
  throw_if (leb_ℤ amount (pos 0)) (bad_request 1)
  let game = joined_game row.table_id db.tables
  let db1 = set_buyin id (λ o. processed RequestStatus.approved user now o.rejection_reason o) db
  let db2 =
      post
        (completed_row club row.player_id player.name amount TransactionType.club_buy_in game
          (club_buyin_note fmt row) now)
        db1
  let db3 =
      post
        (completed_row club row.player_id player.name amount TransactionType.table_buy_in game
          (table_buyin_note fmt row) now)
        db2
  ok (amount, db3)

-- rejectBuyInRequest
unfoldable pub reject_buyin_request : ℕ → ℕ → Option Text → ℕ → ℕ → Db → Result Db
reject_buyin_request club id reason user now db = do
  _ ← or_throw (find? (is_buyin club id) db.buyin_requests) (not_found 0)
  row ← or_throw (find? (λ (o : BuyInRequest). o.id == id) db.buyin_requests) (bad_request 0)
  throw_if (not (is_pending_request row.status)) (bad_request 0)
  ok (set_buyin id (processed RequestStatus.rejected user now (non_empty reason)) db)
