-- ===== src/Cashier/BuyIn/Approved.antt =====
-- What approveBuyInRequest of src/clubs/services/buyin-request.service.ts does to the account of
-- the player.
use poker_crm_backend.Base.{
  ℕ, ◌≡◌, ◌≤◌, refl, true, false, not, Option, some, List, ◌∷◌, ◌==◌, unnegate,
}
use poker_crm_backend.Base.Int.{ℤ, pos, ◌+ℤ◌, ◌<ℤ◌, leb_ℤ, int_laws, not_leb_ℤ}
use poker_crm_backend.Base.Text.{Text}
use poker_crm_backend.Base.Result.{
  ok, bad_request, not_found, throw_if-eq-ok, or_throw-eq-ok, ok-injective,
}
use poker_crm_backend.Base.Rows.{find?}
use poker_crm_backend.Entities.{
  Db, Player, Transaction, TransactionType, GameType, BuyInRequest, is_pending_request,
  completed_row,
}
use poker_crm_backend.Ledger.{
  wallet_balance, credit_balance, session_chips, has_marker, wallet_case, credit_case, chips_case,
}
use poker_crm_backend.Ledger.Balances.{
  wallet_balance_row, credit_balance_row, session_chips_row, KeepsOthers, KeepsOthers-refl,
  KeepsOthers-row,
}
use poker_crm_backend.Floor.Format.{NumberFormat}
use poker_crm_backend.Floor.Waitlist.{or_default}
use poker_crm_backend.Cashier.Notes.{table_buyin_note-unmarked}
use poker_crm_backend.Cashier.BuyIn.{is_buyin, set_buyin, approve_buyin_request}

-- The chips on the table grow by the amount; the wallet and the credit line are as they were.
pub record BuysIn (club player since : ℕ) (amount : ℤ) (ts ts' : List Transaction) : Type 0 where
  pub wallet : wallet_balance club player ts' ≡ wallet_balance club player ts
  pub credit : credit_balance club player ts' ≡ credit_balance club player ts
  pub chips : session_chips club player since ts' ≡ session_chips club player since ts +ℤ amount

module _ (club player : ℕ) (name : Text) (amount : ℤ) (game : GameType) (to_club to_table : Text)
    (now : ℕ) (id id' : ℕ) (ts : List Transaction) where
  abbrev bought_in : List Transaction
  bought_in =
      completed_row club player name amount TransactionType.table_buy_in game to_table now id'
      ∷ (completed_row club player name amount TransactionType.club_buy_in game to_club now id ∷ ts)

  bought_in-BuysIn :
      (since : ℕ)
      → since ≤ now
      → has_marker (some to_table) ≡ false
      → BuysIn club player since amount ts bought_in
  unfolding wallet_case credit_case chips_case
  bought_in-BuysIn since h unmarked = record {
    wallet = rw (wallet_balance_row, wallet_balance_row, unmarked) (omega int_laws);
    credit = rw (credit_balance_row, credit_balance_row) (omega int_laws);
    chips = simp (session_chips_row, h, unmarked) (omega int_laws);
  }

  bought_in-KeepsOthers : KeepsOthers club player ts bought_in
  bought_in-KeepsOthers = KeepsOthers-row _ _ (KeepsOthers-row _ _ (KeepsOthers-refl ts))

module _ (fmt : NumberFormat) (club id : ℕ) where
  -- The row that a successful approval has found, and what it has done for its player.
  pub record Accepted (dto : Option ℤ) (now : ℕ) (db : Db) (r : ℤ × Db) : Type 0 where
    pub row : BuyInRequest
    pub row_found : find? (is_buyin club id) db.buyin_requests ≡ some row
    pub was_pending : is_pending_request row.status ≡ true
    pub amount_known : r.0 ≡ or_default dto row.requested_amount
    pub some_chips : pos 0 <ℤ r.0
    pub buys_in :
        (since : ℕ) → since ≤ now → BuysIn club row.player_id since r.0 db.ledger r.1.ledger
    pub others : KeepsOthers club row.player_id db.ledger r.1.ledger

  -- A successful approval of a buy-in finds a pending request. The amount, of the body or else the
  -- requested one, is positive and becomes chips on the table; the wallet, the credit line and every
  -- other account are as they were.
  pub approve_buyin_request-Accepted :
      (dto : Option ℤ) (user now : ℕ) (db : Db) {r : ℤ × Db}
      → approve_buyin_request fmt club id dto user now db ≡ ok r
      → Accepted dto now db r
  unfolding approve_buyin_request set_buyin
  approve_buyin_request-Accepted dto user now db {r} h =
      let (row, hr, h1) =
        or_throw-eq-ok (find? (is_buyin club id) db.buyin_requests) (not_found 0) _ h in
      let (player, hq, h2) =
        or_throw-eq-ok (find? (λ (p : Player). p.id == row.player_id) db.players) (not_found 0) _
          h1 in
      let (hp, h3) = throw_if-eq-ok (not (is_pending_request row.status)) (bad_request 0) _ h2 in
      let amount = or_default dto row.requested_amount in
      let (ha, h4) = throw_if-eq-ok (leb_ℤ amount (pos 0)) (bad_request 1) _ h3 in
      let same = ok-injective _ r h4 in
      record {
        row = row;
        row_found = hr;
        was_pending = unnegate (is_pending_request row.status) hp;
        amount_known = rw (← same) refl;
        some_chips = rw (← same) (not_leb_ℤ amount (pos 0) ha);
        buys_in = λ since late. rw (← same) (
            bought_in-BuysIn club row.player_id player.name amount _ _ _ now _ _ db.ledger since
              late (table_buyin_note-unmarked fmt row));
        others =
            rw (← same)
              (bought_in-KeepsOthers club row.player_id player.name amount _ _ _ now _ _ db.ledger);
      }
