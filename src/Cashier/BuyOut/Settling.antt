-- ===== src/Cashier/BuyOut/Settling.antt =====
-- What approveBuyOutRequest and settleStaffManualTableBuyOut of
-- src/clubs/services/buyout-request.service.ts leave of a player's money and seat.
use poker_crm_backend.Base.{
  ℕ, ◌≡◌, ◌≤◌, refl, arith, true, false, not, Option, none, some, List, [], ◌∷◌, All, Bool-cases,
  inl, inr,
}
use poker_crm_backend.Base.Int.{ℤ, pos, ◌≤ℤ◌, ltb_ℤ, bound_laws}
use poker_crm_backend.Base.Result.{
  ok, bad_request, not_found, throw_if-eq-ok, or_throw-eq-ok, ok-injective,
}
use poker_crm_backend.Base.Rows.{find?, update_where}
use poker_crm_backend.Entities.{Db, WaitlistEntry, BuyOutRequest, RequestStatus, is_pending_request}
use poker_crm_backend.Ledger.Balances.{KeepsOthers}
use poker_crm_backend.Floor.Format.{NumberFormat}
use poker_crm_backend.Cashier.Settlement.{
  JsAmount, final_amount, is_buyout, player_name_of, numbered_game, credit_owed, seats_player,
  closed_entry, close_entries, free_one_seat, set_buyout, processed_buyout, buyout_note, exit_note,
}
use poker_crm_backend.Cashier.Notes.{exit_note-settles}
use poker_crm_backend.Cashier.Accounts.{IsSettled, settled-IsSettled, settled-KeepsOthers}
use poker_crm_backend.Cashier.BuyOut.{
  BuyOutResult, approved_amount, approve_row, approve_buyout_request,
}
use poker_crm_backend.Floor.Waitlist.{non_zero}
use poker_crm_backend.Base.{unnegate}
use poker_crm_backend.Base.Int.{not_ltb_ℤ}

-- The statements about seats leave the ledger alone.
pub free_one_seat_ledger :
    (club : ℕ) (n : Option ℕ) (db : Db) → (free_one_seat club n db).ledger ≡ db.ledger
unfolding free_one_seat
free_one_seat_ledger club none db = refl
free_one_seat_ledger club (some n) db = refl

pub free_one_seat_entries :
    (club : ℕ) (n : Option ℕ) (db : Db) → (free_one_seat club n db).entries ≡ db.entries
unfolding free_one_seat
free_one_seat_entries club none db = refl
free_one_seat_entries club (some n) db = refl

-- No row that was closed seats the player.
pub close_entries-free :
    (club player now : ℕ) (es : List WaitlistEntry)
    → All
        (λ e. seats_player club player e ≡ false)
        (update_where (seats_player club player) (closed_entry now) es)
unfolding update_where closed_entry seats_player
close_entries-free club player now [] = tt
close_entries-free club player now (e ∷ es) = elim (Bool-cases (seats_player club player e)) [
  | inl h ↦ (rw h (ground arith), close_entries-free club player now es)
  | inr h ↦ (rw h h, close_entries-free club player now es)
]

-- The player has the money back, and no seat.
pub record CashesOut (club player since : ℕ) (res : BuyOutResult) (db db' : Db) : Type 0 where
  pub some_chips : pos 0 ≤ℤ res.amount
  pub settled_all : res.credit_settled ≡ credit_owed club player db
  pub settled : IsSettled club player since res.amount res.credit_settled db.ledger db'.ledger
  pub others : KeepsOthers club player db.ledger db'.ledger
  pub unseated : All (λ e. seats_player club player e ≡ false) db'.entries

pub credit_owed_nonneg : (club player : ℕ) (db : Db) → pos 0 ≤ℤ credit_owed club player db
unfolding credit_owed
credit_owed_nonneg club player db = omega bound_laws

module _ (fmt : NumberFormat) (numeric : ℤ → JsAmount) (club id : ℕ) where
  approve_row-CashesOut :
      (row : BuyOutRequest) (player : ℕ) (amount : ℤ) (user now since : ℕ) (db : Db)
      → since ≤ now
      → pos 0 ≤ℤ amount
      → let r = approve_row fmt numeric club id row player amount user now db in
        CashesOut club player since r.0 db r.1
  unfolding approve_row close_entries set_buyout credit_owed
  approve_row-CashesOut row player amount user now since db late chips =
      let db1 =
        set_buyout id (λ o. processed_buyout RequestStatus.approved user now o.rejection_reason o)
          db in
      let name = player_name_of player db.players in
      let table = non_zero row.table_number in
      let game = numbered_game club table db.tables in
      let owed = credit_owed club player db in
      let out = buyout_note fmt row.table_number amount in
      let settles = exit_note-settles fmt row.table_number owed in
      record {
        some_chips = chips;
        settled_all = refl;
        settled = rw free_one_seat_ledger (
            settled-IsSettled club player name amount owed game out (exit_note fmt row.table_number)
              now db1 since late (credit_owed_nonneg club player db) settles);
        others = rw free_one_seat_ledger (
            settled-KeepsOthers club player name amount owed game out
              (exit_note fmt row.table_number) now db1);
        unseated = rw free_one_seat_entries (close_entries-free club player now _);
      }

  -- The row that a successful approval has found, and what it has done for its player.
  pub record Approved (dto : Option ℤ) (now : ℕ) (db : Db) (r : BuyOutResult × Db) : Type 0 where
    pub row : BuyOutRequest
    pub player : ℕ
    pub row_found : find? (is_buyout club id) db.buyout_requests ≡ some row
    pub was_pending : is_pending_request row.status ≡ true
    pub of_player : row.player_id ≡ some player
    pub amount_known : r.0.amount ≡ final_amount (approved_amount numeric dto row)
    pub cashes_out : (since : ℕ) → since ≤ now → CashesOut club player since r.0 db r.1

  -- A successful approval finds a pending request with a player. The chips, which are not negative,
  -- go to the wallet and leave the table, the wallet pays all the credit that was owed, no other
  -- account changes, and no seated entry of the player is left in the club.
  pub approve_buyout_request-Approved :
      (dto : Option ℤ) (user now : ℕ) (db : Db) {r : BuyOutResult × Db}
      → approve_buyout_request fmt numeric club id dto user now db ≡ ok r
      → Approved dto now db r
  unfolding approve_buyout_request
  approve_buyout_request-Approved dto user now db {r} h =
      let (row, hr, h1) =
        or_throw-eq-ok (find? (is_buyout club id) db.buyout_requests) (not_found 0) _ h in
      let (hp, h2) = throw_if-eq-ok (not (is_pending_request row.status)) (bad_request 0) _ h1 in
      let (player, hq, h3) = or_throw-eq-ok row.player_id (bad_request 1) _ h2 in
      let amount = final_amount (approved_amount numeric dto row) in
      let (ha, h4) = throw_if-eq-ok (ltb_ℤ amount (pos 0)) (bad_request 2) _ h3 in
      let same =
        ok-injective (approve_row fmt numeric club id row player amount user now db) r h4 in
      record {
        row = row;
        player = player;
        row_found = hr;
        was_pending = unnegate (is_pending_request row.status) hp;
        of_player = hq;
        amount_known = rw (← same) (unfold approve_row in refl);
        cashes_out = λ since late. rw (← same) (
            approve_row-CashesOut row player amount user now since db late
              (not_ltb_ℤ amount (pos 0) ha));
      }
