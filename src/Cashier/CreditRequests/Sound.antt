-- ===== src/Cashier/CreditRequests/Sound.antt =====
-- The operations of src/clubs/services/credit-requests.service.ts leave the tables and the waitlist
-- as they are.
use poker_crm_backend.Base.{
  ℕ, ◌≡◌, Bool, not, Option, Option-cases, Bool-cases, inl, inr, is_some, ltb,
}
use poker_crm_backend.Base.Int.{ℤ, pos, ltb_ℤ, min_ℤ}
use poker_crm_backend.Base.Text.{Text, is_empty, text_length, trim}
use poker_crm_backend.Base.Result.{
  ok, bad_request, not_found, forbidden, conflict, throw_if-eq-ok, or_throw-eq-ok, >>=-eq-ok,
  ok-injective,
}
use poker_crm_backend.Base.Rows.{find?}
use poker_crm_backend.Entities.{Db, CreditRequest, is_approved_credit, is_denied_credit}
use poker_crm_backend.Floor.Format.{NumberFormat}
use poker_crm_backend.Floor.Waitlist.{club_exists}
use poker_crm_backend.Floor.Seating.Assign.{is_player}
use poker_crm_backend.Floor.Sound.{IsSoundDb}
use poker_crm_backend.Cashier.Settlement.{seats_player}
use poker_crm_backend.Cashier.CreditRequests.{
  NewCreditRequest, JsNumber, check_amount, long_notes, asks_credit, create_credit_request,
  is_credit_request, find_credit_request, save_credit_request, deny_credit_request,
  update_visibility, check_limit, update_limit,
}
use poker_crm_backend.Cashier.CreditRequests.Approval.{
  seated_number, draw_credit, insert_approved_credit_to_table_ledger, approved_limit,
  approve_credit_request,
}

pub create_credit_request-IsSound :
    (club : ℕ) (d : NewCreditRequest) (now : ℕ) (db : Db) {r : CreditRequest × Db}
    → create_credit_request club d now db ≡ ok r
    → IsSoundDb db
    → IsSoundDb r.1
unfolding create_credit_request
create_credit_request-IsSound club d now db {r} h s =
    let (_, h1) = throw_if-eq-ok (is_empty (trim d.player_key)) (bad_request 0) _ h in
    let (_, h2) = throw_if-eq-ok (ltb 100 (text_length (trim d.player_key))) (bad_request 1) _ h1 in
    let (_, h3) = throw_if-eq-ok (is_empty (trim d.player_name)) (bad_request 2) _ h2 in
    let (_, h4) =
      throw_if-eq-ok (ltb 200 (text_length (trim d.player_name))) (bad_request 3) _ h3 in
    let (a, _, h5) = >>=-eq-ok (check_amount d.amount) _ h4 in
    let (_, h6) = throw_if-eq-ok (long_notes d.notes) (bad_request 8) _ h5 in
    let (_, h7) = throw_if-eq-ok (not (club_exists club db)) (not_found 0) _ h6 in
    let (p, _, h8) =
      or_throw-eq-ok (find? (is_player club d.player_id) db.players) (not_found 1) _ h7 in
    let (_, h9) = throw_if-eq-ok (not p.credit_enabled) (forbidden 0) _ h8 in
    let (_, h10) =
      throw_if-eq-ok (is_some (find? (asks_credit club d.player_id) db.credit_requests))
        (conflict 0) _ h9 in
    rw (← ok-injective _ r h10) s

insert_approved_credit-IsSound :
    (fmt : NumberFormat) (club : ℕ) (r : CreditRequest) (by : Option Text) (now : ℕ) (db : Db)
    → IsSoundDb db
    → IsSoundDb (insert_approved_credit_to_table_ledger fmt club r by now db).1
unfolding insert_approved_credit_to_table_ledger draw_credit
insert_approved_credit-IsSound fmt club r by now db s =
    elim (Option-cases (seated_number (find? (seats_player club r.player_id) db.entries))) [
      | inl e ↦ rw (insert_approved_credit_to_table_ledger, e) s
      | inr (n, e) ↦ elim (Bool-cases (ltb_ℤ (pos 0) (min_ℤ r.amount r.limit))) [
        | inl e' ↦ rw (insert_approved_credit_to_table_ledger, e, e') s
        | inr e' ↦ rw (insert_approved_credit_to_table_ledger, e, e') s
      ]
    ]

pub approve_credit_request-IsSound :
    (fmt : NumberFormat) (club id : ℕ) (limit : Option ℤ) (by : Option Text) (now : ℕ) (db : Db)
    {r : CreditRequest × Db}
    → approve_credit_request fmt club id limit by now db ≡ ok r
    → IsSoundDb db
    → IsSoundDb r.1
unfolding approve_credit_request find_credit_request save_credit_request
approve_credit_request-IsSound fmt club id limit by now db {r} h s =
    let (q, _, h1) =
      or_throw-eq-ok (find? (is_credit_request club id) db.credit_requests) (not_found 0) _ h in
    let (_, h2) = throw_if-eq-ok (is_approved_credit q.status) (conflict 0) _ h1 in
    let (_, h3) = throw_if-eq-ok (is_denied_credit q.status) (conflict 1) _ h2 in
    let (p, _, h4) =
      or_throw-eq-ok (find? (is_player club q.player_id) db.players) (not_found 1) _ h3 in
    let (_, h5) = throw_if-eq-ok (not p.credit_enabled) (bad_request 0) _ h4 in
    let (l, _, h6) = >>=-eq-ok (approved_limit fmt limit q.amount) _ h5 in
    rw (← ok-injective _ r h6) (insert_approved_credit-IsSound fmt club _ by now _ s)

pub deny_credit_request-IsSound :
    (club id : ℕ) (reason : Option Text) (now : ℕ) (db : Db) {r : CreditRequest × Db}
    → deny_credit_request club id reason now db ≡ ok r
    → IsSoundDb db
    → IsSoundDb r.1
unfolding deny_credit_request find_credit_request save_credit_request
deny_credit_request-IsSound club id reason now db {r} h s =
    let (q, _, h1) =
      or_throw-eq-ok (find? (is_credit_request club id) db.credit_requests) (not_found 0) _ h in
    let (_, h2) = throw_if-eq-ok (is_denied_credit q.status) (conflict 0) _ h1 in
    let (_, h3) = throw_if-eq-ok (is_approved_credit q.status) (conflict 1) _ h2 in
    rw (← ok-injective _ r h3) s

pub update_visibility-IsSound :
    (club id : ℕ) (visible : Bool) (now : ℕ) (db : Db) {r : CreditRequest × Db}
    → update_visibility club id visible now db ≡ ok r
    → IsSoundDb db
    → IsSoundDb r.1
unfolding update_visibility find_credit_request save_credit_request
update_visibility-IsSound club id visible now db {r} h s =
    let (q, _, h1) =
      or_throw-eq-ok (find? (is_credit_request club id) db.credit_requests) (not_found 0) _ h in
    rw (← ok-injective _ r h1) s

pub update_limit-IsSound :
    (club id : ℕ) (limit : JsNumber) (now : ℕ) (db : Db) {r : CreditRequest × Db}
    → update_limit club id limit now db ≡ ok r
    → IsSoundDb db
    → IsSoundDb r.1
unfolding update_limit find_credit_request save_credit_request
update_limit-IsSound club id limit now db {r} h s =
    let (l, _, h1) = >>=-eq-ok (check_limit limit) _ h in
    let (q, _, h2) =
      or_throw-eq-ok (find? (is_credit_request club id) db.credit_requests) (not_found 0) _ h1 in
    let (_, h3) = throw_if-eq-ok (not (is_approved_credit q.status)) (bad_request 4) _ h2 in
    rw (← ok-injective _ r h3) s
