-- ===== src/Cashier/Conservation.antt =====
-- The operations of the cashier (src/clubs/services/buyout-request.service.ts and
-- credit-requests.service.ts) move money between wallet, table and credit line, and make none.
use poker_crm_backend.Base.{
  ℕ, ◌≡◌, ◌≤◌, refl, ◌∙◌, arith, false, not, Option, some, List, [], ◌∷◌, Bool-cases, inl, inr,
}
use poker_crm_backend.Base.Int.{ℤ, pos, ltb_ℤ}
use poker_crm_backend.Base.Text.{Text}
use poker_crm_backend.Base.Result.{
  ok, bad_request, not_found, throw_if-eq-ok, or_throw-eq-ok, ok-injective,
}
use poker_crm_backend.Base.Rows.{find?}
use poker_crm_backend.Entities.{Db, Table, GameType, is_pending_request}
use poker_crm_backend.Ledger.{is_repayment}
use poker_crm_backend.Ledger.NetWorth.{
  Conserves, Conserves-trans, net_worth-table_buy_out, net_worth-debit,
}
use poker_crm_backend.Floor.Format.{NumberFormat}
use poker_crm_backend.Cashier.Settlement.{
  JsAmount, final_amount, is_buyout, return_chips, settle_credit, close_entries, set_buyout,
  exit_note, close_note,
}
use poker_crm_backend.Cashier.Notes.{exit_note-settles, close_note-settles}
use poker_crm_backend.Cashier.BuyOut.{
  BuyOutResult, approved_amount, approve_row, approve_buyout_request, settle_player, settle_players,
  record_rake, clear_seats, settle_all_players_on_table, table_number_of,
}
use poker_crm_backend.Cashier.BuyOut.Settling.{free_one_seat_ledger}
use poker_crm_backend.Cashier.BuyOut.{settle_staff_manual_table_buyout, seats_player_at}
use poker_crm_backend.Cashier.Settlement.{staff_note, seats_player}
use poker_crm_backend.Entities.Requests.{CreditRequest, is_approved_credit, is_denied_credit}
use poker_crm_backend.Cashier.CreditRequests.Approval.{
  draw_credit, insert_approved_credit_to_table_ledger, seated_number, approver_text, approved_note,
  approved_pair_note, approve_credit_request, approved_limit,
}
use poker_crm_backend.Cashier.CreditRequests.{
  find_credit_request, save_credit_request, is_credit_request,
}
use poker_crm_backend.Floor.Seating.Assign.{is_player}
use poker_crm_backend.Ledger.NetWorth.{net_worth-table_buy_in}
use poker_crm_backend.Base.{is_some, Option-cases}
use poker_crm_backend.Base.Int.{pos_part, max_ℤ, min_ℤ}
use poker_crm_backend.Base.Result.{conflict, >>=-eq-ok}
use poker_crm_backend.Cashier.Notes.{staff_note-settles}
use poker_crm_backend.Ledger.NetWorth.{net_worth-credit, net_worth-table_buy_in}

-- The chips that come back, and then the debit that settles the credit.
settled-Conserves :
    (club player : ℕ) (name : Text) (amount owed : ℤ) (game : GameType) (out : Text)
    (note : ℤ → Text) (now : ℕ) (db : Db) (since : ℕ)
    → since ≤ now
    → is_repayment (some (note owed)) ≡ false
    → Conserves since db.ledger
        (settle_credit club player name owed game note now
          (return_chips club player name amount game out now db)).ledger
unfolding settle_credit return_chips
settled-Conserves club player name amount owed game out note now db since late settles = record {
  worth = λ c p. elim (Bool-cases (ltb_ℤ (pos 0) owed)) [
    | inl e ↦ rw e (
        net_worth-debit c p since club player name owed game (note owed) now _ _ late settles
        ∙ net_worth-table_buy_out c p since club player name amount game out now _ db.ledger late)
    | inr e ↦
        rw e
          (net_worth-table_buy_out c p since club player name amount game out now _ db.ledger late)
  ];
}

-- The approval of a buy-out leaves the net worth of every account as it was: cash in the wallet and
-- chips since an instant not later than now, less the credit drawn.
pub approve_buyout_request-Conserves :
    (fmt : NumberFormat) (numeric : ℤ → JsAmount) (club id : ℕ) (dto : Option ℤ) (user now : ℕ)
    (db : Db) {r : BuyOutResult × Db} (since : ℕ)
    → since ≤ now
    → approve_buyout_request fmt numeric club id dto user now db ≡ ok r
    → Conserves since db.ledger r.1.ledger
unfolding approve_buyout_request approve_row close_entries set_buyout
approve_buyout_request-Conserves fmt numeric club id dto user now db {r} since late h =
    let (row, _, h1) =
      or_throw-eq-ok (find? (is_buyout club id) db.buyout_requests) (not_found 0) _ h in
    let (_, h2) = throw_if-eq-ok (not (is_pending_request row.status)) (bad_request 0) _ h1 in
    let (player, _, h3) = or_throw-eq-ok row.player_id (bad_request 1) _ h2 in
    let amount = final_amount (approved_amount numeric dto row) in
    let (_, h4) = throw_if-eq-ok (ltb_ℤ amount (pos 0)) (bad_request 2) _ h3 in
    rw (← ok-injective _ r h4) (
      rw free_one_seat_ledger (
        settled-Conserves club player _ amount _ _ _ (exit_note fmt row.table_number) now _ since
          late (exit_note-settles fmt row.table_number _)))

settle_players-Conserves :
    (fmt : NumberFormat) (club : ℕ) (table : Option Table) (now since : ℕ)
    → since ≤ now
    → (settlements : List (ℕ × ℤ)) (db : Db)
    → Conserves since db.ledger (settle_players fmt club table now settlements db).ledger
unfolding settle_players settle_player close_entries
settle_players-Conserves fmt club table now since late [] db = record { worth = λ c p. refl }
settle_players-Conserves fmt club table now since late ((player, amount) ∷ rest) db =
    let number = table_number_of table in
    Conserves-trans
      (settled-Conserves club player _ amount _ _ _ (close_note fmt number) now db since late
        (close_note-settles fmt number _))
      (settle_players-Conserves fmt club table now since late rest _)

record_rake_ledger :
    (club table_id : ℕ) (n : Option ℕ) (rake : Option ℤ) (by : Option ℕ) (now : ℕ) (db : Db)
    → (record_rake club table_id n rake by now db).ledger ≡ db.ledger
unfolding record_rake
record_rake_ledger club table_id n rake by now db = ground arith

-- The settlement of a whole table, whoever is settled with whatever chips, and its rake leave the net
-- worth of every account as it was.
pub settle_all_players_on_table-Conserves :
    (fmt : NumberFormat) (club table_id : ℕ) (settlements : List (ℕ × ℤ)) (rake : Option ℤ)
    (by : Option ℕ) (now : ℕ) (db : Db) (since : ℕ)
    → since ≤ now
    → Conserves since db.ledger
        (settle_all_players_on_table fmt club table_id settlements rake by now db).ledger
unfolding settle_all_players_on_table clear_seats
settle_all_players_on_table-Conserves fmt club table_id settlements rake by now db since late =
    rw record_rake_ledger (settle_players-Conserves fmt club _ now since late settlements db)

-- The buy-out that staff enter leaves the net worth of every account as it was.
pub settle_staff_manual_table_buyout-Conserves :
    (fmt : NumberFormat) (club : ℕ) (dto_player : Option ℕ) (table amount : ℤ)
    (reason : Option Text) (now : ℕ) (db : Db) {r : BuyOutResult × Db} (since : ℕ)
    → since ≤ now
    → settle_staff_manual_table_buyout fmt club dto_player table amount reason now db ≡ ok r
    → Conserves since db.ledger r.1.ledger
unfolding settle_staff_manual_table_buyout close_entries
settle_staff_manual_table_buyout-Conserves fmt club dto_player table amount reason now db {r} since
      late h =
    let (player, _, h1) = or_throw-eq-ok dto_player (bad_request 0) _ h in
    let (_, h2) = throw_if-eq-ok (ltb_ℤ table (pos 1)) (bad_request 1) _ h1 in
    let number = pos_part table in
    let (_, h3) =
      throw_if-eq-ok (not (is_some (find? (seats_player_at club player number) db.entries)))
        (bad_request 2) _ h2 in
    rw (← ok-injective _ r h3) (
      rw free_one_seat_ledger (
        settled-Conserves club player _ (max_ℤ (pos 0) amount) _ _ _ (staff_note fmt number) now db
          since late (staff_note-settles fmt number _)))

draw_credit-Conserves :
    (fmt : NumberFormat) (club : ℕ) (r : CreditRequest) (draw : ℤ) (number : ℕ) (by : Text)
    (now : ℕ) (db : Db) (since : ℕ)
    → since ≤ now
    → Conserves since db.ledger (draw_credit fmt club r draw number by now db).ledger
unfolding draw_credit
draw_credit-Conserves fmt club r draw number by now db since late = record {
  worth = λ c p.
      net_worth-table_buy_in c p since club r.player_id _ draw _
        (approved_pair_note fmt number draw) now _ _ late
      ∙ net_worth-credit c p since club r.player_id _ draw _ (approved_note fmt number by draw) now
          _ db.ledger late;
}

insert_approved_credit-Conserves :
    (fmt : NumberFormat) (club : ℕ) (r : CreditRequest) (by : Option Text) (now : ℕ) (db : Db)
    (since : ℕ)
    → since ≤ now
    → Conserves since db.ledger
        (insert_approved_credit_to_table_ledger fmt club r by now db).1.ledger
unfolding insert_approved_credit_to_table_ledger
insert_approved_credit-Conserves fmt club r by now db since late =
    let draw = min_ℤ r.amount r.limit in
    elim (Option-cases (seated_number (find? (seats_player club r.player_id) db.entries))) [
      | inl e ↦ rw (insert_approved_credit_to_table_ledger, e) (record { worth = λ c p. refl })
      | inr (n, e) ↦ elim (Bool-cases (ltb_ℤ (pos 0) draw)) [
        | inl e' ↦
            rw (insert_approved_credit_to_table_ledger, e, e')
              (draw_credit-Conserves fmt club r draw n (approver_text by) now db since late)
        | inr e' ↦
            rw (insert_approved_credit_to_table_ledger, e, e') (record { worth = λ c p. refl })
      ]
    ]

-- The approval of a credit request, with what it draws for a seated player, leaves the net worth of
-- every account as it was.
pub approve_credit_request-Conserves :
    (fmt : NumberFormat) (club id : ℕ) (limit : Option ℤ) (by : Option Text) (now : ℕ) (db : Db)
    {r : CreditRequest × Db} (since : ℕ)
    → since ≤ now
    → approve_credit_request fmt club id limit by now db ≡ ok r
    → Conserves since db.ledger r.1.ledger
unfolding approve_credit_request find_credit_request save_credit_request
approve_credit_request-Conserves fmt club id limit by now db {r} since late h =
    let (q, _, h1) =
      or_throw-eq-ok (find? (is_credit_request club id) db.credit_requests) (not_found 0) _ h in
    let (_, h2) = throw_if-eq-ok (is_approved_credit q.status) (conflict 0) _ h1 in
    let (_, h3) = throw_if-eq-ok (is_denied_credit q.status) (conflict 1) _ h2 in
    let (p, _, h4) =
      or_throw-eq-ok (find? (is_player club q.player_id) db.players) (not_found 1) _ h3 in
    let (_, h5) = throw_if-eq-ok (not p.credit_enabled) (bad_request 0) _ h4 in
    let (l, _, h6) = >>=-eq-ok (approved_limit fmt limit q.amount) _ h5 in
    rw (← ok-injective _ r h6) (insert_approved_credit-Conserves fmt club _ by now _ since late)
