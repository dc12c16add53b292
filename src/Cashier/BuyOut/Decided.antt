-- ===== src/Cashier/BuyOut/Decided.antt =====
-- A buy-out request of src/clubs/services/buyout-request.service.ts is decided at most once.
use poker_crm_backend.Base.{
  ℕ, ◌≡◌, refl, arith, ◌∙◌, Bool, true, false, not, Option, none, some, List, ◌==◌, &&-parts,
}
use poker_crm_backend.Base.Int.{ℤ, pos, ltb_ℤ}
use poker_crm_backend.Base.Text.{Text}
use poker_crm_backend.Base.Result.{
  ok, err, bad_request, not_found, throw_if-eq-ok, or_throw-eq-ok, ok-injective,
}
use poker_crm_backend.Base.Rows.{
  find?, update_where, find?-update_where, find?-update_implied, find?-sound, find?-weaker,
}
use poker_crm_backend.Entities.{Db, GameType, BuyOutRequest, RequestStatus, is_pending_request}
use poker_crm_backend.Floor.Format.{NumberFormat}
use poker_crm_backend.Cashier.Settlement.{
  JsAmount, final_amount, is_buyout, return_chips, settle_credit, close_entries, free_one_seat,
  set_buyout, processed_buyout,
}
use poker_crm_backend.Cashier.BuyOut.{
  BuyOutResult, approved_amount, approve_row, approve_buyout_request, reject_buyout_request,
}

-- The request is there, by its id and by its club, and is pending no more.
pub record IsDecided (club id : ℕ) (rows : List BuyOutRequest) : Type 0 where
  pub row : BuyOutRequest
  pub found : find? (is_buyout club id) rows ≡ some row
  pub closed : is_pending_request row.status ≡ false
  pub first : BuyOutRequest
  pub first_found : find? (λ (o : BuyOutRequest). o.id == id) rows ≡ some first
  pub first_closed : is_pending_request first.status ≡ false

-- A decision that is written by the id closes the request.
processed-IsDecided :
    (club id : ℕ) (f : BuyOutRequest → BuyOutRequest) (rows : List BuyOutRequest)
    {row : BuyOutRequest}
    → ((o : BuyOutRequest)
        → ((f o).id ≡ o.id)
          × ((f o).club_id ≡ o.club_id)
          × (is_pending_request (f o).status ≡ false))
    → find? (is_buyout club id) rows ≡ some row
    → IsDecided club id (update_where (λ (o : BuyOutRequest). o.id == id) f rows)
unfolding is_buyout
processed-IsDecided club id f rows {row} closes h =
    let by_id : BuyOutRequest → Bool = λ (o : BuyOutRequest). o.id == id in
    let weaker : (o : BuyOutRequest) → is_buyout club id o ≡ true → by_id o ≡ true =
      (λ o e. (&&-parts (o.id == id) (o.club_id == club) e).0) in
    let (first, k) = find?-weaker (is_buyout club id) by_id rows weaker h in
    record {
      row = f row;
      found =
          find?-update_implied (is_buyout club id) by_id f rows weaker
            (λ o. rw ((closes o).0, (closes o).1) refl) h;
      closed = (closes row).2;
      first = f first;
      first_found =
          find?-update_where by_id f rows (rw (closes first).0 (find?-sound by_id rows k)) k;
      first_closed = (closes first).2;
    }

settle_credit_requests :
    (club player : ℕ) (name : Text) (owed : ℤ) (game : GameType) (note : ℤ → Text) (now : ℕ)
    (db : Db)
    → (settle_credit club player name owed game note now db).buyout_requests ≡ db.buyout_requests
unfolding settle_credit
settle_credit_requests club player name owed game note now db = ground arith

free_one_seat_requests :
    (club : ℕ) (n : Option ℕ) (db : Db)
    → (free_one_seat club n db).buyout_requests ≡ db.buyout_requests
unfolding free_one_seat
free_one_seat_requests club none db = refl
free_one_seat_requests club (some n) db = refl

approve_row_requests :
    (fmt : NumberFormat) (numeric : ℤ → JsAmount) (club id : ℕ) (row : BuyOutRequest) (player : ℕ)
    (amount : ℤ) (user now : ℕ) (db : Db)
    → (approve_row fmt numeric club id row player amount user now db).1.buyout_requests
      ≡ (set_buyout id
          (λ o. processed_buyout RequestStatus.approved user now o.rejection_reason o)
          db).buyout_requests
unfolding approve_row close_entries return_chips
approve_row_requests fmt numeric club id row player amount user now db =
    free_one_seat_requests club _ _ ∙ settle_credit_requests club player _ _ _ _ now _

-- What either decision leaves.
approved-IsDecided :
    (fmt : NumberFormat) (numeric : ℤ → JsAmount) (club id : ℕ) (dto : Option ℤ) (user now : ℕ)
    (db : Db) {r : BuyOutResult × Db}
    → approve_buyout_request fmt numeric club id dto user now db ≡ ok r
    → IsDecided club id r.1.buyout_requests
unfolding approve_buyout_request set_buyout processed_buyout
approved-IsDecided fmt numeric club id dto user now db {r} h =
    let (row, hr, h1) =
      or_throw-eq-ok (find? (is_buyout club id) db.buyout_requests) (not_found 0) _ h in
    let (hp, h2) = throw_if-eq-ok (not (is_pending_request row.status)) (bad_request 0) _ h1 in
    let (player, hq, h3) = or_throw-eq-ok row.player_id (bad_request 1) _ h2 in
    let amount = final_amount (approved_amount numeric dto row) in
    let (ha, h4) = throw_if-eq-ok (ltb_ℤ amount (pos 0)) (bad_request 2) _ h3 in
    let same = ok-injective (approve_row fmt numeric club id row player amount user now db) r h4 in
    rw (← same) (
      rw approve_row_requests
        (processed-IsDecided club id _ db.buyout_requests (λ o. (refl, refl, refl)) hr))

rejected-IsDecided :
    (club id : ℕ) (reason : Option Text) (user now : ℕ) (db : Db) {db' : Db}
    → reject_buyout_request club id reason user now db ≡ ok db'
    → IsDecided club id db'.buyout_requests
unfolding reject_buyout_request set_buyout processed_buyout
rejected-IsDecided club id reason user now db {db'} h =
    let (row, hr, h1) =
      or_throw-eq-ok (find? (is_buyout club id) db.buyout_requests) (not_found 0) _ h in
    let (first, hq, h2) =
      or_throw-eq-ok (find? (λ (o : BuyOutRequest). o.id == id) db.buyout_requests) (bad_request 0)
        _ h1 in
    let (hp, h3) = throw_if-eq-ok (not (is_pending_request first.status)) (bad_request 0) _ h2 in
    rw (← ok-injective _ db' h3)
      (processed-IsDecided club id _ db.buyout_requests (λ o. (refl, refl, refl)) hr)

-- A second decision of either kind is refused as one on a request that is not pending.
abbrev pub RefusesBuyOut : NumberFormat → (ℤ → JsAmount) → ℕ → ℕ → Db → Type 0
RefusesBuyOut fmt numeric club id db =
    (user now : ℕ)
    → ((dto : Option ℤ)
        → approve_buyout_request fmt numeric club id dto user now db ≡ err (bad_request 0))
      × ((reason : Option Text)
          → reject_buyout_request club id reason user now db ≡ err (bad_request 0))

decided-RefusesBuyOut :
    (fmt : NumberFormat) (numeric : ℤ → JsAmount) (club id : ℕ) (db : Db)
    → IsDecided club id db.buyout_requests
    → RefusesBuyOut fmt numeric club id db
unfolding approve_buyout_request reject_buyout_request
decided-RefusesBuyOut fmt numeric club id db d user now =
    (λ dto. rw (d.found, d.closed) refl, λ reason. rw (d.found, d.first_found, d.first_closed) refl)

-- A buy-out request that was approved refuses every later approval and rejection.
pub approve_buyout_request-once :
    (fmt : NumberFormat) (numeric : ℤ → JsAmount) (club id : ℕ) (dto : Option ℤ) (user now : ℕ)
    (db : Db) {r : BuyOutResult × Db}
    → approve_buyout_request fmt numeric club id dto user now db ≡ ok r
    → RefusesBuyOut fmt numeric club id r.1
approve_buyout_request-once fmt numeric club id dto user now db {r} h =
    decided-RefusesBuyOut fmt numeric club id r.1
      (approved-IsDecided fmt numeric club id dto user now db h)

-- A buy-out request that was rejected refuses every later approval and rejection.
pub reject_buyout_request-once :
    (fmt : NumberFormat) (numeric : ℤ → JsAmount) (club id : ℕ) (reason : Option Text)
    (user now : ℕ) (db : Db) {db' : Db}
    → reject_buyout_request club id reason user now db ≡ ok db'
    → RefusesBuyOut fmt numeric club id db'
reject_buyout_request-once fmt numeric club id reason user now db {db'} h =
    decided-RefusesBuyOut fmt numeric club id db' (rejected-IsDecided club id reason user now db h)
