-- ===== src/Cashier/CreditRequests/Decided.antt =====
-- A credit request of src/clubs/services/credit-requests.service.ts is decided at most once, and a
-- player has at most one that is pending.
use poker_crm_backend.Base.{ℕ, ◌≡◌, refl, true, not, Option, some, List, ◌==◌, &&-parts, arith}
use poker_crm_backend.Base.Int.{ℤ, pos, ltb_ℤ}
use poker_crm_backend.Base.Text.{Text}
use poker_crm_backend.Base.Result.{
  ok, err, bad_request, not_found, conflict, throw_if-eq-ok, or_throw-eq-ok, >>=-eq-ok,
  ok-injective,
}
use poker_crm_backend.Base.Rows.{find?, find?-saved, find?-sound}
use poker_crm_backend.Entities.{
  Db, CreditRequest, CreditRequestStatus, is_approved_credit, is_denied_credit,
}
use poker_crm_backend.Floor.Format.{NumberFormat}
use poker_crm_backend.Floor.Seating.Assign.{is_player}
use poker_crm_backend.Cashier.CreditRequests.{
  is_credit_request, find_credit_request, save_credit_request, deny_credit_request,
}
use poker_crm_backend.Cashier.CreditRequests.Approval.{
  approved_limit, approve_credit_request, insert_approved_credit_to_table_ledger, draw_credit,
  seated_number,
}
use poker_crm_backend.Base.Int.{min_ℤ}
use poker_crm_backend.Base.{Option-cases, inl, inr, Bool-cases}
use poker_crm_backend.Cashier.Settlement.{seats_player}

-- The request is there, and is approved or denied.
pub record IsClosed (club id : ℕ) (status : CreditRequestStatus) (rows : List CreditRequest)
    : Type 0 where
  pub row : CreditRequest
  pub found : find? (is_credit_request club id) rows ≡ some row
  pub closed : row.status ≡ status

-- The row that was found, saved with a decision on it.
saved-IsClosed :
    (club id : ℕ) (r r' : CreditRequest) (db : Db)
    → find? (is_credit_request club id) db.credit_requests ≡ some r
    → r'.id ≡ r.id
    → r'.club_id ≡ r.club_id
    → IsClosed club id r'.status (save_credit_request r' db).credit_requests
unfolding save_credit_request is_credit_request
saved-IsClosed club id r r' db h same same_club =
    let mine = find?-sound (is_credit_request club id) db.credit_requests h in
    let (here, _) = &&-parts (r.id == id) (r.club_id == club) mine in
    let weaker : (o : CreditRequest) → is_credit_request club id o ≡ true → (o.id == r'.id) ≡ true =
      (λ o e. ground arith) in
    record {
      row = r';
      found =
          find?-saved (is_credit_request club id) (λ (o : CreditRequest). o.id == r'.id) r'
            db.credit_requests weaker (simp (same, same_club) mine) h;
      closed = refl;
    }

insert_approved_credit_requests :
    (fmt : NumberFormat) (club : ℕ) (r : CreditRequest) (by : Option Text) (now : ℕ) (db : Db)
    → (insert_approved_credit_to_table_ledger fmt club r by now db).1.credit_requests
      ≡ db.credit_requests
unfolding insert_approved_credit_to_table_ledger draw_credit
insert_approved_credit_requests fmt club r by now db =
    elim (Option-cases (seated_number (find? (seats_player club r.player_id) db.entries))) [
      | inl e ↦ rw (insert_approved_credit_to_table_ledger, e) refl
      | inr (n, e) ↦ elim (Bool-cases (ltb_ℤ (pos 0) (min_ℤ r.amount r.limit))) [
        | inl e' ↦ rw (insert_approved_credit_to_table_ledger, e, e') refl
        | inr e' ↦ rw (insert_approved_credit_to_table_ledger, e, e') refl
      ]
    ]

approved-IsClosed :
    (fmt : NumberFormat) (club id : ℕ) (limit : Option ℤ) (by : Option Text) (now : ℕ) (db : Db)
    {r : CreditRequest × Db}
    → approve_credit_request fmt club id limit by now db ≡ ok r
    → IsClosed club id CreditRequestStatus.approved r.1.credit_requests
unfolding approve_credit_request find_credit_request
approved-IsClosed fmt club id limit by now db {r} h =
    let (q, hq, h1) =
      or_throw-eq-ok (find? (is_credit_request club id) db.credit_requests) (not_found 0) _ h in
    let (_, h2) = throw_if-eq-ok (is_approved_credit q.status) (conflict 0) _ h1 in
    let (_, h3) = throw_if-eq-ok (is_denied_credit q.status) (conflict 1) _ h2 in
    let (p, hp, h4) =
      or_throw-eq-ok (find? (is_player club q.player_id) db.players) (not_found 1) _ h3 in
    let (_, h5) = throw_if-eq-ok (not p.credit_enabled) (bad_request 0) _ h4 in
    let (l, _, h6) = >>=-eq-ok (approved_limit fmt limit q.amount) _ h5 in
    rw (← ok-injective _ r h6)
      (rw insert_approved_credit_requests (saved-IsClosed club id q _ db hq refl refl))

denied-IsClosed :
    (club id : ℕ) (reason : Option Text) (now : ℕ) (db : Db) {r : CreditRequest × Db}
    → deny_credit_request club id reason now db ≡ ok r
    → IsClosed club id CreditRequestStatus.denied r.1.credit_requests
unfolding deny_credit_request find_credit_request
denied-IsClosed club id reason now db {r} h =
    let (q, hq, h1) =
      or_throw-eq-ok (find? (is_credit_request club id) db.credit_requests) (not_found 0) _ h in
    let (_, h2) = throw_if-eq-ok (is_denied_credit q.status) (conflict 0) _ h1 in
    let (_, h3) = throw_if-eq-ok (is_approved_credit q.status) (conflict 1) _ h2 in
    rw (← ok-injective _ r h3) (saved-IsClosed club id q _ db hq refl refl)

-- A credit request that was approved refuses a later approval as one on an approved request, and a
-- later denial as one on an approved request.
pub approve_credit_request-once :
    (fmt : NumberFormat) (club id : ℕ) (limit : Option ℤ) (by : Option Text) (now : ℕ) (db : Db)
    {r : CreditRequest × Db}
    → approve_credit_request fmt club id limit by now db ≡ ok r
    → (limit' : Option ℤ) (by' reason' : Option Text) (now' : ℕ)
    → (approve_credit_request fmt club id limit' by' now' r.1 ≡ err (conflict 0))
      × (deny_credit_request club id reason' now' r.1 ≡ err (conflict 1))
approve_credit_request-once fmt club id limit by now db {r} h limit' by' reason' now' =
    let c = approved-IsClosed fmt club id limit by now db h in
    (
      unfold approve_credit_request find_credit_request in rw (c.found, c.closed) refl,
      unfold deny_credit_request find_credit_request in rw (c.found, c.closed) refl,
    )

-- A credit request that was denied refuses a later approval and a later denial as one on a denied
-- request.
pub deny_credit_request-once :
    (fmt : NumberFormat) (club id : ℕ) (reason : Option Text) (now : ℕ) (db : Db)
    {r : CreditRequest × Db}
    → deny_credit_request club id reason now db ≡ ok r
    → (limit' : Option ℤ) (by' reason' : Option Text) (now' : ℕ)
    → (approve_credit_request fmt club id limit' by' now' r.1 ≡ err (conflict 1))
      × (deny_credit_request club id reason' now' r.1 ≡ err (conflict 0))
deny_credit_request-once fmt club id reason now db {r} h limit' by' reason' now' =
    let c = denied-IsClosed club id reason now db h in
    (
      unfold approve_credit_request find_credit_request in rw (c.found, c.closed) refl,
      unfold deny_credit_request find_credit_request in rw (c.found, c.closed) refl,
    )
