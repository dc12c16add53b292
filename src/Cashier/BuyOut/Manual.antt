-- ===== src/Cashier/BuyOut/Manual.antt =====
-- settleStaffManualTableBuyOut of src/clubs/services/buyout-request.service.ts: the money and the
-- seat of the player.
use poker_crm_backend.Base.{
  ℕ, ◌≡◌, ◌≤◌, refl, arith, true, false, not, Option, some, List, [], ◌∷◌, All, Bool-cases, inl,
  inr, is_some,
}
use poker_crm_backend.Base.Int.{ℤ, pos, pos_part, ltb_ℤ, max_ℤ}
use poker_crm_backend.Base.Text.{Text}
use poker_crm_backend.Base.Result.{ok, bad_request, throw_if-eq-ok, or_throw-eq-ok, ok-injective}
use poker_crm_backend.Base.Rows.{find?, update_where}
use poker_crm_backend.Entities.{Db, WaitlistEntry}
use poker_crm_backend.Ledger.Balances.{KeepsOthers}
use poker_crm_backend.Floor.Format.{NumberFormat}
use poker_crm_backend.Cashier.Settlement.{
  credit_owed, seats_player, closed_entry, close_entries, staff_note,
}
use poker_crm_backend.Cashier.Notes.{staff_note-settles}
use poker_crm_backend.Cashier.Accounts.{IsSettled, settled-IsSettled, settled-KeepsOthers}
use poker_crm_backend.Cashier.BuyOut.{
  BuyOutResult, seats_player_at, settle_staff_manual_table_buyout,
}
use poker_crm_backend.Cashier.BuyOut.Settling.{
  credit_owed_nonneg, free_one_seat_ledger, free_one_seat_entries,
}
use poker_crm_backend.Cashier.BuyOut.Closing.{return_chips_owed}
use poker_crm_backend.Base.{unnegate}

-- The player of the request had a seat at the table, has the money back, and has left the table.
pub record StaffCashesOut (club : ℕ) (dto_player : Option ℕ) (table amount : ℤ) (now : ℕ) (db : Db)
    (r : BuyOutResult × Db) : Type 0 where
  pub player : ℕ
  pub of_dto : dto_player ≡ some player
  pub was_seated : is_some (find? (seats_player_at club player (pos_part table)) db.entries) ≡ true
  pub amount_known : r.0.amount ≡ max_ℤ (pos 0) amount
  pub settled_all : r.0.credit_settled ≡ credit_owed club player db
  pub settled :
      (since : ℕ)
      → since ≤ now
      → IsSettled club player since r.0.amount r.0.credit_settled db.ledger r.1.ledger
  pub others : KeepsOthers club player db.ledger r.1.ledger
  pub left : All (λ e. seats_player_at club player (pos_part table) e ≡ false) r.1.entries

close_entries-left :
    (club player number now : ℕ) (es : List WaitlistEntry)
    → All
        (λ e. seats_player_at club player number e ≡ false)
        (update_where (seats_player_at club player number) (closed_entry now) es)
unfolding update_where closed_entry seats_player_at seats_player
close_entries-left club player number now [] = tt
close_entries-left club player number now (e ∷ es) =
    elim (Bool-cases (seats_player_at club player number e)) [
      | inl h ↦ (rw h (ground arith), close_entries-left club player number now es)
      | inr h ↦ (rw h h, close_entries-left club player number now es)
    ]

-- A successful buy-out by staff finds the player seated at the table. The amount, or nothing if it is
-- negative, goes from the table to the wallet, the wallet pays all the credit that was owed, no other
-- account changes, and no entry of the player is seated at that table any more.
pub settle_staff_manual_table_buyout-CashesOut :
    (fmt : NumberFormat) (club : ℕ) (dto_player : Option ℕ) (table amount : ℤ)
    (reason : Option Text) (now : ℕ) (db : Db) {r : BuyOutResult × Db}
    → settle_staff_manual_table_buyout fmt club dto_player table amount reason now db ≡ ok r
    → StaffCashesOut club dto_player table amount now db r
unfolding settle_staff_manual_table_buyout close_entries
settle_staff_manual_table_buyout-CashesOut fmt club dto_player table amount reason now db {r} h =
    let (player, hp, h1) = or_throw-eq-ok dto_player (bad_request 0) _ h in
    let (_, h2) = throw_if-eq-ok (ltb_ℤ table (pos 1)) (bad_request 1) _ h1 in
    let number = pos_part table in
    let seated = is_some (find? (seats_player_at club player number) db.entries) in
    let (hs, h3) = throw_if-eq-ok (not seated) (bad_request 2) _ h2 in
    let same = ok-injective _ r h3 in
    let owed = credit_owed club player db in
    record {
      player = player;
      of_dto = hp;
      was_seated = unnegate seated hs;
      amount_known = rw (← same) refl;
      settled_all = rw (← same, return_chips_owed) refl;
      settled = λ since late.
          rw (← same, return_chips_owed, free_one_seat_ledger)
            (settled-IsSettled club player _ (max_ℤ (pos 0) amount) owed _ _ (staff_note fmt number)
              now db since late (credit_owed_nonneg club player db)
              (staff_note-settles fmt number owed));
      others =
          rw (← same, return_chips_owed, free_one_seat_ledger)
            (settled-KeepsOthers club player _ (max_ℤ (pos 0) amount) owed _ _
              (staff_note fmt number) now db);
      left = rw (← same, free_one_seat_entries) (close_entries-left club player number now _);
    }
