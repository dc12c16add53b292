-- ===== src/Cashier/Sound.antt =====
-- The operations of src/clubs/services/buyin-request.service.ts, buyout-request.service.ts and
-- credit-requests.service.ts overfill no table and seat no two players at one place.
use poker_crm_backend.Base.{
  ℕ, ◌≡◌, arith, Bool, not, Option, none, some, List, [], ◌∷◌, ◌==◌, ◌&&◌, is_some, inl, inr,
  Bool-cases,
}
use poker_crm_backend.Base.Int.{ℤ, pos, pos_part, ltb_ℤ, leb_ℤ}
use poker_crm_backend.Base.Result.{
  ok, bad_request, not_found, throw_if-eq-ok, or_throw-eq-ok, ok-injective,
}
use poker_crm_backend.Base.Text.{Text}
use poker_crm_backend.Base.Rows.{find?, All-update_where}
use poker_crm_backend.Entities.{
  Db, Table, WaitlistEntry, Player, BuyInRequest, BuyOutRequest, GameType, is_pending_request,
}
use poker_crm_backend.Floor.Format.{NumberFormat}
use poker_crm_backend.Floor.Waitlist.{or_default}
use poker_crm_backend.Floor.Seating.Capacity.{IsWithin}
use poker_crm_backend.Floor.Seating.Places.{leave-ArePlacesDistinct}
use poker_crm_backend.Floor.Sound.{IsSoundDb}
use poker_crm_backend.Cashier.BuyIn.{
  is_buyin, set_buyin, approve_buyin_request, reject_buyin_request,
}
use poker_crm_backend.Cashier.Settlement.{
  JsAmount, final_amount, is_buyout, return_chips, settle_credit, closed_entry, close_entries,
  one_seat_less, free_one_seat, set_buyout,
}
use poker_crm_backend.Cashier.BuyOut.{
  BuyOutResult, approved_amount, approve_row, approve_buyout_request, reject_buyout_request,
  settle_player, settle_players, record_rake, clear_seats, settle_all_players_on_table,
  seats_player_at, settle_staff_manual_table_buyout,
}

-- The statements of a settlement.
settle_credit-IsSound :
    (club player : ℕ) (name : Text) (owed : ℤ) (game : GameType) (note : ℤ → Text) (now : ℕ)
    (db : Db)
    → IsSoundDb db
    → IsSoundDb (settle_credit club player name owed game note now db)
unfolding settle_credit
settle_credit-IsSound club player name owed game note now db s =
    elim (Bool-cases (ltb_ℤ (pos 0) owed)) [ inl e ↦ rw e s | inr e ↦ rw e s ]

close_entries-IsSound :
    (p : WaitlistEntry → Bool) (now : ℕ) (db : Db)
    → IsSoundDb db
    → IsSoundDb (close_entries p now db)
unfolding close_entries closed_entry
close_entries-IsSound p now db s = record {
  within = s.within;
  places = leave-ArePlacesDistinct p (closed_entry now) db.entries (λ e h. cc) s.places;
}

free_one_seat-IsSound :
    (club : ℕ) (n : Option ℕ) (db : Db) → IsSoundDb db → IsSoundDb (free_one_seat club n db)
unfolding free_one_seat one_seat_less
free_one_seat-IsSound club none db s = s
free_one_seat-IsSound club (some n) db s = record {
  within = All-update_where IsWithin _ one_seat_less db.tables (λ t _ w. omega arith) s.within;
  places = s.places;
}

module _ (fmt : NumberFormat) (numeric : ℤ → JsAmount) (club : ℕ) where
  approve_row-IsSound :
      (id : ℕ) (row : BuyOutRequest) (player : ℕ) (amount : ℤ) (user now : ℕ) (db : Db)
      → IsSoundDb db
      → IsSoundDb (approve_row fmt numeric club id row player amount user now db).1
  unfolding approve_row set_buyout return_chips
  approve_row-IsSound id row player amount user now db s =
      free_one_seat-IsSound club _ _
        (close_entries-IsSound _ now _ (settle_credit-IsSound club player _ _ _ _ now _ s))

  pub approve_buyout_request-IsSound :
      (id : ℕ) (dto : Option ℤ) (user now : ℕ) (db : Db) {r : BuyOutResult × Db}
      → approve_buyout_request fmt numeric club id dto user now db ≡ ok r
      → IsSoundDb db
      → IsSoundDb r.1
  unfolding approve_buyout_request
  approve_buyout_request-IsSound id dto user now db {r} h s =
      let (row, _, h1) =
        or_throw-eq-ok (find? (is_buyout club id) db.buyout_requests) (not_found 0) _ h in
      let (_, h2) = throw_if-eq-ok (not (is_pending_request row.status)) (bad_request 0) _ h1 in
      let (player, _, h3) = or_throw-eq-ok row.player_id (bad_request 1) _ h2 in
      let amount = final_amount (approved_amount numeric dto row) in
      let (_, h4) = throw_if-eq-ok (ltb_ℤ amount (pos 0)) (bad_request 2) _ h3 in
      rw (← ok-injective _ r h4) (approve_row-IsSound id row player amount user now db s)

pub reject_buyout_request-IsSound :
    (club id : ℕ) (reason : Option Text) (user now : ℕ) (db : Db) {db' : Db}
    → reject_buyout_request club id reason user now db ≡ ok db'
    → IsSoundDb db
    → IsSoundDb db'
unfolding reject_buyout_request set_buyout
reject_buyout_request-IsSound club id reason user now db {db'} h s =
    let (_, _, h1) =
      or_throw-eq-ok (find? (is_buyout club id) db.buyout_requests) (not_found 0) _ h in
    let (row, _, h2) =
      or_throw-eq-ok (find? (λ (o : BuyOutRequest). o.id == id) db.buyout_requests) (bad_request 0)
        _ h1 in
    let (_, h3) = throw_if-eq-ok (not (is_pending_request row.status)) (bad_request 0) _ h2 in
    rw (← ok-injective _ db' h3) s

settle_players-IsSound :
    (fmt : NumberFormat) (club : ℕ) (table : Option Table) (now : ℕ) (settlements : List (ℕ × ℤ))
    (db : Db)
    → IsSoundDb db
    → IsSoundDb (settle_players fmt club table now settlements db)
unfolding settle_players settle_player return_chips
settle_players-IsSound fmt club table now [] db s = s
settle_players-IsSound fmt club table now ((player, amount) ∷ rest) db s =
    settle_players-IsSound fmt club table now rest _
      (close_entries-IsSound _ now _ (settle_credit-IsSound club player _ _ _ _ now _ s))

record_rake-IsSound :
    (club table_id : ℕ) (n : Option ℕ) (rake : Option ℤ) (by : Option ℕ) (now : ℕ) (db : Db)
    → IsSoundDb db
    → IsSoundDb (record_rake club table_id n rake by now db)
unfolding record_rake
record_rake-IsSound club table_id none rake by now db s = s
record_rake-IsSound club table_id (some n) none by now db s = s
record_rake-IsSound club table_id (some n) (some rake) by now db s =
    elim (Bool-cases (ltb_ℤ (pos 0) rake && not (n == 0))) [ inl e ↦ rw e s | inr e ↦ rw e s ]

pub settle_all_players_on_table-IsSound :
    (fmt : NumberFormat) (club table_id : ℕ) (settlements : List (ℕ × ℤ)) (rake : Option ℤ)
    (by : Option ℕ) (now : ℕ) (db : Db)
    → IsSoundDb db
    → IsSoundDb (settle_all_players_on_table fmt club table_id settlements rake by now db)
unfolding settle_all_players_on_table clear_seats
settle_all_players_on_table-IsSound fmt club table_id settlements rake by now db s =
    let s1 =
      record_rake-IsSound club table_id _ rake by now _
        (settle_players-IsSound fmt club _ now settlements db s) in
    record {
      within = All-update_where IsWithin _ _ _ (λ t _ w. omega arith) s1.within;
      places = s1.places;
    }

pub settle_staff_manual_table_buyout-IsSound :
    (fmt : NumberFormat) (club : ℕ) (player : Option ℕ) (table amount : ℤ) (reason : Option Text)
    (now : ℕ) (db : Db) {r : BuyOutResult × Db}
    → settle_staff_manual_table_buyout fmt club player table amount reason now db ≡ ok r
    → IsSoundDb db
    → IsSoundDb r.1
unfolding settle_staff_manual_table_buyout return_chips
settle_staff_manual_table_buyout-IsSound fmt club player table amount reason now db {r} h s =
    let (p, _, h1) = or_throw-eq-ok player (bad_request 0) _ h in
    let (_, h2) = throw_if-eq-ok (ltb_ℤ table (pos 1)) (bad_request 1) _ h1 in
    let (_, h3) =
      throw_if-eq-ok (not (is_some (find? (seats_player_at club p (pos_part table)) db.entries)))
        (bad_request 2) _ h2 in
    rw (← ok-injective _ r h3) (
      free_one_seat-IsSound club _ _
        (close_entries-IsSound _ now _ (settle_credit-IsSound club p _ _ _ _ now _ s)))

pub approve_buyin_request-IsSound :
    (fmt : NumberFormat) (club id : ℕ) (dto : Option ℤ) (user now : ℕ) (db : Db) {r : ℤ × Db}
    → approve_buyin_request fmt club id dto user now db ≡ ok r
    → IsSoundDb db
    → IsSoundDb r.1
unfolding approve_buyin_request set_buyin
approve_buyin_request-IsSound fmt club id dto user now db {r} h s =
    let (row, _, h1) =
      or_throw-eq-ok (find? (is_buyin club id) db.buyin_requests) (not_found 0) _ h in
    let (_, _, h2) =
      or_throw-eq-ok (find? (λ (p : Player). p.id == row.player_id) db.players) (not_found 0) _
        h1 in
    let (_, h3) = throw_if-eq-ok (not (is_pending_request row.status)) (bad_request 0) _ h2 in
    let (_, h4) =
      throw_if-eq-ok (leb_ℤ (or_default dto row.requested_amount) (pos 0)) (bad_request 1) _ h3 in
    rw (← ok-injective _ r h4) s

pub reject_buyin_request-IsSound :
    (club id : ℕ) (reason : Option Text) (user now : ℕ) (db : Db) {db' : Db}
    → reject_buyin_request club id reason user now db ≡ ok db'
    → IsSoundDb db
    → IsSoundDb db'
unfolding reject_buyin_request set_buyin
reject_buyin_request-IsSound club id reason user now db {db'} h s =
    let (_, _, h1) =
      or_throw-eq-ok (find? (is_buyin club id) db.buyin_requests) (not_found 0) _ h in
    let (row, _, h2) =
      or_throw-eq-ok (find? (λ (o : BuyInRequest). o.id == id) db.buyin_requests) (bad_request 0) _
        h1 in
    let (_, h3) = throw_if-eq-ok (not (is_pending_request row.status)) (bad_request 0) _ h2 in
    rw (← ok-injective _ db' h3) s
