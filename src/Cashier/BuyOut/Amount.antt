-- ===== src/Cashier/BuyOut/Amount.antt =====
-- The amount and the table of an approved buy-out in src/clubs/services/buyout-request.service.ts:
-- what the types of the database driver and the status of the table make of them.
use poker_crm_backend.Base.{
  ℕ, ◌≡◌, refl, sym, ◌∙◌, arith, true, false, not, Option, none, some, List, Bool-cases,
  Option-cases, inl, inr, if◌then◌else◌,
}
use poker_crm_backend.Base.Int.{ℤ, pos, ltb_ℤ}
use poker_crm_backend.Base.Text.{Text}
use poker_crm_backend.Base.Result.{
  ok, bad_request, not_found, throw_if-eq-ok, or_throw-eq-ok, ok-injective,
}
use poker_crm_backend.Base.Rows.{find?, find?-update_keep}
use poker_crm_backend.Entities.{
  Db, Table, TableStatus, WaitlistEntry, GameType, BuyOutRequest, is_pending_request,
}
use poker_crm_backend.Floor.Format.{NumberFormat}
use poker_crm_backend.Floor.Tables.{is_table, has_number}
use poker_crm_backend.Floor.Seating.Checks.{not_open}
use poker_crm_backend.Floor.Seating.Assign.{assign_seat}
use poker_crm_backend.Floor.Seating.Inversion.{assign_seat-locked, assign_seat_locked-Assigned}
use poker_crm_backend.Floor.Waitlist.{non_zero}
use poker_crm_backend.Cashier.Settlement.{
  JsAmount, as_string, final_amount, is_buyout, return_chips, settle_credit, close_entries,
  one_seat_less, free_one_seat, set_buyout,
}
use poker_crm_backend.Cashier.BuyOut.{
  BuyOutResult, approved_amount, approve_row, approve_buyout_request,
}
use poker_crm_backend.Cashier.BuyOut.Settling.{approve_buyout_request-Approved}

text_is_nothing :
    (numeric : ℤ → JsAmount) (row : BuyOutRequest)
    → ((a : ℤ) → numeric a ≡ as_string a)
    → final_amount (approved_amount numeric none row) ≡ pos 0
unfolding final_amount approved_amount
text_is_nothing numeric row texts = elim (Option-cases row.requested_amount) [
  | inl e ↦ elim (Option-cases row.current_table_balance) [
    | inl e' ↦ rw (approved_amount, e, e') refl
    | inr (b, e') ↦ rw (approved_amount, e, e', texts b) refl
  ]
  | inr (a, e) ↦ rw (approved_amount, e, texts a) refl
]

-- Where the database driver hands over a NUMERIC column as text, a successful approval whose body
-- has no amount pays out nothing, whatever amount the request or the table balance of its row is.
pub approve_buyout_request-pays_nothing :
    (fmt : NumberFormat) (numeric : ℤ → JsAmount) (club id user now : ℕ) (db : Db)
    {r : BuyOutResult × Db}
    → ((a : ℤ) → numeric a ≡ as_string a)
    → approve_buyout_request fmt numeric club id none user now db ≡ ok r
    → r.0.amount ≡ pos 0
approve_buyout_request-pays_nothing fmt numeric club id user now db texts h =
    let a = approve_buyout_request-Approved fmt numeric club id none user now db h in
    a.amount_known ∙ text_is_nothing numeric a.row texts

settle_credit_tables :
    (club player : ℕ) (name : Text) (owed : ℤ) (game : GameType) (note : ℤ → Text) (now : ℕ)
    (db : Db)
    → (settle_credit club player name owed game note now db).tables ≡ db.tables
unfolding settle_credit
settle_credit_tables club player name owed game note now db = ground arith

-- The status of the table that is found.
StatusIs : ℕ → ℕ → TableStatus → List Table → Type 0
StatusIs club id status tables =
    (t : Table) × (find? (is_table club id) tables ≡ some t) × (t.status ≡ status)

free_one_seat-StatusIs :
    (club id : ℕ) (status : TableStatus) (n : Option ℕ) (db : Db)
    → StatusIs club id status db.tables
    → StatusIs club id status (free_one_seat club n db).tables
unfolding StatusIs free_one_seat one_seat_less is_table
free_one_seat-StatusIs club id status none db s = s
free_one_seat-StatusIs club id status (some n) db (t, found, e) = (
  (if has_number club n t then one_seat_less t else t),
  find?-update_keep (is_table club id) (has_number club n) one_seat_less db.tables (λ _. refl)
      found,
  elim (Bool-cases (has_number club n t)) [ inl k ↦ rw k e | inr k ↦ rw k e ],
)

module _ (fmt : NumberFormat) (numeric : ℤ → JsAmount) (club : ℕ) where
  approve_row-StatusIs :
      (id : ℕ) (row : BuyOutRequest) (player : ℕ) (amount : ℤ) (user now : ℕ) (db : Db)
      (table_id : ℕ) (status : TableStatus)
      → StatusIs club table_id status db.tables
      → StatusIs club table_id status
          (approve_row fmt numeric club id row player amount user now db).1.tables
  unfolding approve_row close_entries return_chips set_buyout
  approve_row-StatusIs id row player amount user now db table_id status s =
      free_one_seat-StatusIs club table_id status (non_zero row.table_number) _
        (rw settle_credit_tables s)

  approve_buyout_request-StatusIs :
      (id : ℕ) (dto : Option ℤ) (user now : ℕ) (db : Db) (table_id : ℕ) (status : TableStatus)
      {r : BuyOutResult × Db}
      → approve_buyout_request fmt numeric club id dto user now db ≡ ok r
      → StatusIs club table_id status db.tables
      → StatusIs club table_id status r.1.tables
  unfolding approve_buyout_request
  approve_buyout_request-StatusIs id dto user now db table_id status {r} h s =
      let (row, _, h1) =
        or_throw-eq-ok (find? (is_buyout club id) db.buyout_requests) (not_found 0) _ h in
      let (_, h2) = throw_if-eq-ok (not (is_pending_request row.status)) (bad_request 0) _ h1 in
      let (player, _, h3) = or_throw-eq-ok row.player_id (bad_request 1) _ h2 in
      let amount = final_amount (approved_amount numeric dto row) in
      let (_, h4) = throw_if-eq-ok (ltb_ℤ amount (pos 0)) (bad_request 2) _ h3 in
      rw (← ok-injective _ r h4)
        (approve_row-StatusIs id row player amount user now db table_id status s)

-- A table with the status OCCUPIED seats no one.
occupied-refuses :
    (fmt : NumberFormat) (club entry_id table_id by : ℕ) (seat : Option ℕ) (now : ℕ)
    (before db : Db) (q : WaitlistEntry × Db)
    → StatusIs club table_id TableStatus.occupied db.tables
    → ¬ (assign_seat fmt club entry_id table_id by seat now before db ≡ ok q)
unfolding StatusIs not_open
occupied-refuses fmt club entry_id table_id by seat now before db q (t, found, e) h =
    let a =
      assign_seat_locked-Assigned fmt club entry_id table_id by seat now db
        (assign_seat-locked fmt club entry_id table_id by seat now before db h) in
    let same : some a.table ≡ some t = (sym a.table_found ∙ found) in
    let here : a.table ≡ t = cc in
    let open_table : not_open t.status ≡ false = (rw (← here) a.allowed.table_open) in
    let clash : not_open t.status ≡ true = (rw e refl) in cc

-- After the approval of a buy-out, a table that was OCCUPIED before refuses every seating, whichever
-- table the player left.
pub approve_buyout_request-keeps_occupied :
    (fmt : NumberFormat) (numeric : ℤ → JsAmount) (club id : ℕ) (dto : Option ℤ) (user now : ℕ)
    (db : Db) {r : BuyOutResult × Db} (table_id : ℕ) (t : Table)
    → approve_buyout_request fmt numeric club id dto user now db ≡ ok r
    → find? (is_table club table_id) db.tables ≡ some t
    → t.status ≡ TableStatus.occupied
    → (entry_id by later : ℕ) (seat : Option ℕ) (before : Db) (q : WaitlistEntry × Db)
    → ¬ (assign_seat fmt club entry_id table_id by seat later before r.1 ≡ ok q)
unfolding StatusIs
approve_buyout_request-keeps_occupied fmt numeric club id dto user now db {r} table_id t h found e
      entry_id by later seat before q =
    occupied-refuses fmt club entry_id table_id by seat later before r.1 q (
      approve_buyout_request-StatusIs fmt numeric club id dto user now db table_id
        TableStatus.occupied h (t, found, e))
