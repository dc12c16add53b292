-- ===== src/Transactions/Accepted.antt =====
-- What a body that create of src/clubs/services/financial-transactions.service.ts accepts has passed.
use poker_crm_backend.Base.{ℕ, ◌≡◌, refl, ap, not, ◌&&◌, ltb, if◌then◌else◌}
use poker_crm_backend.Base.Int.{ℤ, pos, ◌<ℤ◌, ◌≤ℤ◌, ltb_ℤ, leb_ℤ}
use poker_crm_backend.Base.Result.{
  ok, bad_request, not_found, throw_if-eq-ok, >>=-eq-ok, ok-injective,
}
use poker_crm_backend.Base.Text.{is_empty, text_length, trim}
use poker_crm_backend.Entities.{Db, Transaction, TransactionType, post}
use poker_crm_backend.Floor.Format.{NumberFormat}
use poker_crm_backend.Floor.Waitlist.{club_exists}
use poker_crm_backend.Cashier.CreditRequests.{
  JsNumber, missing, not_a_number, long_notes, max_credit,
}
use poker_crm_backend.Transactions.{
  NewTransaction, known, no_type, unknown_type, check_type, check_entered, create_transaction,
  entered_row, is_club_buy_in, has_credit, post_repayment,
}
use poker_crm_backend.Base.Rows.{find?}
use poker_crm_backend.Floor.Seating.Assign.{is_player}
use poker_crm_backend.Transactions.{JsType}
use poker_crm_backend.Base.Int.{not_leb_ℤ, not_ltb_ℤ}

-- What an accepted body says, and the database after it.
pub record IsEntered (fmt : NumberFormat) (club : ℕ) (d : NewTransaction) (now : ℕ) (db : Db)
    (r : Transaction × Db) : Type 0 where
  pub type : TransactionType
  pub a : ℤ
  pub is_type : d.txn_type ≡ known type
  pub is_amount : d.amount ≡ JsNumber.amount a
  pub above : pos 0 <ℤ a
  pub below : a ≤ℤ max_credit
  pub result :
      ◌≡◌ {A = Transaction × Db}
        (
          entered_row club d type a now db.next_id,
          if is_club_buy_in type && has_credit (find? (is_player club d.player_id) db.players)
              then post_repayment fmt club d a now (post (entered_row club d type a now) db)
              else post (entered_row club d type a now) db,
        )
        r

check_type-eq-ok : (t : JsType) {type : TransactionType} → check_type t ≡ ok type → t ≡ known type
unfolding check_type
check_type-eq-ok no_type h = cc
check_type-eq-ok unknown_type h = cc
check_type-eq-ok (known t) h = ap known (ok-injective t _ h)

check_entered-eq-ok :
    (n : JsNumber) {a : ℤ}
    → check_entered n ≡ ok a
    → (n ≡ JsNumber.amount a) × (pos 0 <ℤ a) × (a ≤ℤ max_credit)
unfolding check_entered
check_entered-eq-ok missing h = cc
check_entered-eq-ok not_a_number h = cc
check_entered-eq-ok (JsNumber.amount b) {a} h =
    let (low, h1) = throw_if-eq-ok (leb_ℤ b (pos 0)) (bad_request 8) _ h in
    let (high, h2) = throw_if-eq-ok (ltb_ℤ max_credit b) (bad_request 9) _ h1 in
    rw (← ok-injective b a h2) (refl, not_leb_ℤ b (pos 0) low, not_ltb_ℤ max_credit b high)

pub create_transaction-IsEntered :
    (fmt : NumberFormat) (club : ℕ) (d : NewTransaction) (now : ℕ) (db : Db) {r : Transaction × Db}
    → create_transaction fmt club d now db ≡ ok r
    → IsEntered fmt club d now db r
unfolding create_transaction
create_transaction-IsEntered fmt club d now db {r} h =
    let (type, ht, h1) = >>=-eq-ok (check_type d.txn_type) _ h in
    let (_, h2) = throw_if-eq-ok (is_empty (trim d.player_key)) (bad_request 2) _ h1 in
    let (_, h3) = throw_if-eq-ok (ltb 100 (text_length (trim d.player_key))) (bad_request 3) _ h2 in
    let (_, h4) = throw_if-eq-ok (is_empty (trim d.player_name)) (bad_request 4) _ h3 in
    let (_, h5) =
      throw_if-eq-ok (ltb 200 (text_length (trim d.player_name))) (bad_request 5) _ h4 in
    let (a, ha, h6) = >>=-eq-ok (check_entered d.amount) _ h5 in
    let (_, h7) = throw_if-eq-ok (long_notes d.notes) (bad_request 10) _ h6 in
    let (_, h8) = throw_if-eq-ok (not (club_exists club db)) (not_found 0) _ h7 in
    let (is_amount, above, below) = check_entered-eq-ok d.amount ha in
    record {
      type = type;
      a = a;
      is_type = check_type-eq-ok d.txn_type ht;
      is_amount = is_amount;
      above = above;
      below = below;
      result = ok-injective _ r h8;
    }
