-- ===== src/Cashier/BuyOut/Closing.antt =====
-- settleAllPlayersOnTable of
-- src/clubs/services/buyout-request.service.ts: who is left seated, and the money of one player.
use poker_crm_backend.Base.{
  ℕ, ◌≡◌, ◌≤◌, refl, sym, ◌∙◌, arith, Bool, true, false, Option, List, [], ◌∷◌, All, Memᴰ, inl, inr,
}
use poker_crm_backend.Base.Int.{ℤ}
use poker_crm_backend.Base.Text.{Text}
use poker_crm_backend.Base.Rows.{update_where, mem-update_where, All-update_where}
use poker_crm_backend.Entities.{Db, Table, WaitlistEntry, GameType}
use poker_crm_backend.Ledger.Balances.{KeepsOthers}
use poker_crm_backend.Floor.Format.{NumberFormat}
use poker_crm_backend.Floor.Tables.{is_table}
use poker_crm_backend.Cashier.Settlement.{
  credit_owed, return_chips, settle_credit, seats_player, closed_entry, close_entries, close_note,
}
use poker_crm_backend.Cashier.Notes.{close_note-settles}
use poker_crm_backend.Cashier.Accounts.{IsSettled, settled-IsSettled, settled-KeepsOthers}
use poker_crm_backend.Cashier.BuyOut.{
  settle_player, settle_players, table_number_of, record_rake, clear_seats,
  settle_all_players_on_table,
}
use poker_crm_backend.Cashier.BuyOut.Settling.{close_entries-free, credit_owed_nonneg}
use poker_crm_backend.Ledger.{credit_case}
use poker_crm_backend.Ledger.Balances.{credit_balance_row}
use poker_crm_backend.Base.Int.{pos-+ℤ}

-- No entry of the player is seated in the club.
abbrev pub HasNoSeat : ℕ → ℕ → List WaitlistEntry → Type 0
HasNoSeat club player es = All (λ e. seats_player club player e ≡ false) es

-- Closing entries of anyone seats no one.
close_entries-HasNoSeat :
    (club player now : ℕ) (p : WaitlistEntry → Bool) (es : List WaitlistEntry)
    → HasNoSeat club player es
    → HasNoSeat club player (update_where p (closed_entry now) es)
unfolding closed_entry seats_player
close_entries-HasNoSeat club player now p es =
    All-update_where (λ e. seats_player club player e ≡ false) p (closed_entry now) es
      (λ e _ _. ground arith)

settle_credit_entries :
    (club player : ℕ) (name : Text) (owed : ℤ) (game : GameType) (note : ℤ → Text) (now : ℕ)
    (db : Db)
    → (settle_credit club player name owed game note now db).entries ≡ db.entries
unfolding settle_credit
settle_credit_entries club player name owed game note now db = ground arith

module _ (fmt : NumberFormat) (club : ℕ) (table : Option Table) (now : ℕ) where
  settle_player_entries :
      (player : ℕ) (amount : ℤ) (db : Db)
      → (settle_player fmt club table now player amount db).entries
        ≡ update_where (seats_player club player) (closed_entry now) db.entries
  unfolding settle_player close_entries return_chips
  settle_player_entries player amount db = rw settle_credit_entries refl

  settle_players-keeps :
      (player : ℕ) (settlements : List (ℕ × ℤ)) (db : Db)
      → HasNoSeat club player db.entries
      → HasNoSeat club player (settle_players fmt club table now settlements db).entries
  unfolding settle_players
  settle_players-keeps player [] db h = h
  settle_players-keeps player ((other, amount) ∷ rest) db h =
      settle_players-keeps player rest (settle_player fmt club table now other amount db) (
        rw settle_player_entries
          (close_entries-HasNoSeat club player now (seats_player club other) db.entries h))

  settle_players-HasNoSeat :
      (player : ℕ) (amount : ℤ) (settlements : List (ℕ × ℤ)) (db : Db)
      → Memᴰ (player, amount) settlements
      → HasNoSeat club player (settle_players fmt club table now settlements db).entries
  unfolding settle_players
  settle_players-HasNoSeat player amount [] db m = elim m [ ]
  settle_players-HasNoSeat player amount ((other, a) ∷ rest) db (Memᴰ.head e) =
      let same : player ≡ other = cc in
      settle_players-keeps player rest (settle_player fmt club table now other a db)
        (rw (settle_player_entries, same) (close_entries-free club other now db.entries))
  settle_players-HasNoSeat player amount ((other, a) ∷ rest) db (Memᴰ.tail m) =
      settle_players-HasNoSeat player amount rest _ m

-- The chips that come back are no credit.
pub return_chips_owed :
    (club player : ℕ) (name : Text) (amount : ℤ) (game : GameType) (out : Text) (now : ℕ) (db : Db)
    → credit_owed club player (return_chips club player name amount game out now db)
      ≡ credit_owed club player db
unfolding credit_owed return_chips credit_case
return_chips_owed club player name amount game out now db = rw (credit_balance_row, pos-+ℤ) refl

-- One round of the settlement of a table: the chips that are given go to the wallet and leave the
-- table, the wallet pays all the credit that was owed, and no other account changes.
pub settle_player-IsSettled :
    (fmt : NumberFormat) (club : ℕ) (table : Option Table) (now player : ℕ) (amount : ℤ) (db : Db)
    (since : ℕ)
    → since ≤ now
    → let db' = settle_player fmt club table now player amount db in
      IsSettled club player since amount (credit_owed club player db) db.ledger db'.ledger
      × KeepsOthers club player db.ledger db'.ledger
unfolding settle_player close_entries
settle_player-IsSettled fmt club table now player amount db since late =
    let owed = credit_owed club player db in
    let number = table_number_of table in
    rw return_chips_owed (
      settled-IsSettled club player _ amount owed _ _ (close_note fmt number) now db since late
          (credit_owed_nonneg club player db) (close_note-settles fmt number owed),
      settled-KeepsOthers club player _ amount owed _ _ (close_note fmt number) now db,
    )

record_rake_entries :
    (club table_id : ℕ) (n : Option ℕ) (rake : Option ℤ) (by : Option ℕ) (now : ℕ) (db : Db)
    → (record_rake club table_id n rake by now db).entries ≡ db.entries
unfolding record_rake
record_rake_entries club table_id n rake by now db = ground arith

-- Settling a table leaves it with no seat taken, and every player of the settlements with no seat in
-- the club.
pub settle_all_players_on_table-clears :
    (fmt : NumberFormat) (club table_id : ℕ) (settlements : List (ℕ × ℤ)) (rake : Option ℤ)
    (by : Option ℕ) (now : ℕ) (db : Db)
    → let db' = settle_all_players_on_table fmt club table_id settlements rake by now db in
      ((t : Table) → Memᴰ t db'.tables → is_table club table_id t ≡ true → t.current_seats ≡ 0)
      × ((player : ℕ) (amount : ℤ)
          → Memᴰ (player, amount) settlements
          → HasNoSeat club player db'.entries)
unfolding settle_all_players_on_table clear_seats is_table
settle_all_players_on_table-clears fmt club table_id settlements rake by now db = (
  λ t m e. elim (mem-update_where _ _ _ t m).2 [
    | inl (_, same) ↦ rw same refl
    | inr (other, same) ↦ let clash : true ≡ false = (sym e ∙ rw same other) in cc
  ],
  λ player amount m.
      rw record_rake_entries
        (settle_players-HasNoSeat fmt club _ now player amount settlements db m),
)
