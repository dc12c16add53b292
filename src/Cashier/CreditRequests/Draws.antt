-- ===== src/Cashier/CreditRequests/Draws.antt =====
-- What the approval of a credit request in src/clubs/services/credit-requests.service.ts does to
-- the account of the player.
use poker_crm_backend.Base.{
  ℕ, ◌≡◌, ◌≤◌, refl, arith, true, not, Option, none, some, List, Option-cases, inl, inr,
}
use poker_crm_backend.Base.Int.{ℤ, pos, ◌+ℤ◌, ◌≤ℤ◌, min_ℤ, int_laws, bound_laws, ltb_ℤ_cases}
use poker_crm_backend.Base.Text.{Text}
use poker_crm_backend.Base.Result.{
  ok, bad_request, not_found, conflict, throw_if-eq-ok, or_throw-eq-ok, >>=-eq-ok, ok-injective,
}
use poker_crm_backend.Base.Rows.{find?}
use poker_crm_backend.Entities.{
  Db, WaitlistEntry, CreditRequest, Transaction, is_pending_credit, is_approved_credit,
  is_denied_credit,
}
use poker_crm_backend.Ledger.{
  wallet_balance, credit_balance, session_chips, wallet_case, credit_case, chips_case,
}
use poker_crm_backend.Ledger.Balances.{
  wallet_balance_row, credit_balance_row, session_chips_row, KeepsOthers, KeepsOthers-refl,
  KeepsOthers-row,
}
use poker_crm_backend.Floor.Format.{NumberFormat}
use poker_crm_backend.Floor.Seating.Assign.{is_player}
use poker_crm_backend.Cashier.Settlement.{seats_player}
use poker_crm_backend.Cashier.Notes.{approved_pair_note-marked}
use poker_crm_backend.Cashier.CreditRequests.{
  is_credit_request, find_credit_request, save_credit_request,
}
use poker_crm_backend.Cashier.CreditRequests.Approval.{
  seated_number, approver_text, draw_credit, insert_approved_credit_to_table_ledger, approved_limit,
  approve_credit_request,
}

-- The credit drawn becomes chips on the table, and never cash: the wallet is as it was.
pub record Draws (club player since : ℕ) (draw : ℤ) (ts ts' : List Transaction) : Type 0 where
  pub wallet : wallet_balance club player ts' ≡ wallet_balance club player ts
  pub credit : credit_balance club player ts' ≡ credit_balance club player ts +ℤ draw
  pub chips : session_chips club player since ts' ≡ session_chips club player since ts +ℤ draw

none-Draws : (club player since : ℕ) (ts : List Transaction) → Draws club player since (pos 0) ts ts
none-Draws club player since ts = record {
  wallet = refl;
  credit = omega int_laws;
  chips = omega int_laws;
}

module _ (fmt : NumberFormat) (club : ℕ) (r : CreditRequest) (number : ℕ) (by : Text) (draw : ℤ)
    (now : ℕ) (db : Db) where
  draw_credit-Draws :
      (since : ℕ)
      → since ≤ now
      → Draws club r.player_id since draw db.ledger
          (draw_credit fmt club r draw number by now db).ledger
  unfolding draw_credit wallet_case credit_case chips_case
  draw_credit-Draws since h = record {
    wallet =
        rw (wallet_balance_row, wallet_balance_row, approved_pair_note-marked) (omega int_laws);
    credit = rw (credit_balance_row, credit_balance_row) (omega int_laws);
    chips = simp (session_chips_row, h, approved_pair_note-marked) (omega int_laws);
  }

  draw_credit-KeepsOthers :
      KeepsOthers club r.player_id db.ledger (draw_credit fmt club r draw number by now db).ledger
  unfolding draw_credit
  draw_credit-KeepsOthers = KeepsOthers-row _ _ (KeepsOthers-row _ _ (KeepsOthers-refl db.ledger))

-- What an approval has drawn: at most the amount and the limit of the request, nothing where the
-- player has no seat.
pub record HasDrawn (club : ℕ) (r : CreditRequest) (now : ℕ) (entries : List WaitlistEntry)
    (ts ts' : List Transaction) : Type 0 where
  pub draw : ℤ
  pub some_draw : pos 0 ≤ℤ draw
  pub in_amount : pos 0 ≤ℤ r.amount → draw ≤ℤ r.amount
  pub in_limit : pos 0 ≤ℤ r.limit → draw ≤ℤ r.limit
  pub unseated : seated_number (find? (seats_player club r.player_id) entries) ≡ none → draw ≡ pos 0
  pub draws : (since : ℕ) → since ≤ now → Draws club r.player_id since draw ts ts'
  pub others : KeepsOthers club r.player_id ts ts'

nothing-HasDrawn :
    (club : ℕ) (r : CreditRequest) (now : ℕ) (db : Db)
    → HasDrawn club r now db.entries db.ledger db.ledger
nothing-HasDrawn club r now db = record {
  draw = pos 0;
  some_draw = omega arith;
  in_amount = λ h. h;
  in_limit = λ h. h;
  unseated = λ _. refl;
  draws = λ since _. none-Draws club r.player_id since db.ledger;
  others = KeepsOthers-refl db.ledger;
}

insert-HasDrawn :
    (fmt : NumberFormat) (club : ℕ) (r : CreditRequest) (by : Option Text) (now : ℕ) (db : Db)
    → HasDrawn club r now db.entries db.ledger
        (insert_approved_credit_to_table_ledger fmt club r by now db).1.ledger
unfolding insert_approved_credit_to_table_ledger
insert-HasDrawn fmt club r by now db =
    let draw = min_ℤ r.amount r.limit in
    elim (Option-cases (seated_number (find? (seats_player club r.player_id) db.entries))) [
      | inl e ↦ rw (insert_approved_credit_to_table_ledger, e) (nothing-HasDrawn club r now db)
      | inr (n, e) ↦ elim (ltb_ℤ_cases (pos 0) draw) [
        | inl (e', more) ↦
            rw (insert_approved_credit_to_table_ledger, e, e')
              (record {
                draw = draw;
                some_draw = omega arith;
                in_amount = λ _. omega bound_laws;
                in_limit = λ _. omega bound_laws;
                unseated = λ k. cc;
                draws = draw_credit-Draws fmt club r n (approver_text by) draw now db;
                others = draw_credit-KeepsOthers fmt club r n (approver_text by) draw now db;
              })
        | inr (e', _) ↦
            rw (insert_approved_credit_to_table_ledger, e, e') (nothing-HasDrawn club r now db)
      ]
    ]

-- The request that a successful approval has found, and what it has drawn.
pub record Granted (club id : ℕ) (now : ℕ) (db : Db) (r : CreditRequest × Db) : Type 0 where
  pub row : CreditRequest
  pub row_found : find? (is_credit_request club id) db.credit_requests ≡ some row
  pub was_pending : is_pending_credit row.status ≡ true
  pub of_player : r.0.player_id ≡ row.player_id
  pub of_amount : r.0.amount ≡ row.amount
  pub drawn : HasDrawn club r.0 now db.entries db.ledger r.1.ledger

-- A successful approval of a credit request finds one that is neither approved nor denied, and draws
-- at most its amount and its limit, where these are not negative. What it draws is added to the
-- credit line and to the chips on the table; the wallet and every other account are as they were, and
-- a player without a seat at a table draws nothing.
pub approve_credit_request-Granted :
    (fmt : NumberFormat) (club id : ℕ) (limit : Option ℤ) (by : Option Text) (now : ℕ) (db : Db)
    {r : CreditRequest × Db}
    → approve_credit_request fmt club id limit by now db ≡ ok r
    → Granted club id now db r
unfolding approve_credit_request find_credit_request save_credit_request
approve_credit_request-Granted fmt club id limit by now db {r} h =
    let (q, hq, h1) =
      or_throw-eq-ok (find? (is_credit_request club id) db.credit_requests) (not_found 0) _ h in
    let (ha, h2) = throw_if-eq-ok (is_approved_credit q.status) (conflict 0) _ h1 in
    let (hd, h3) = throw_if-eq-ok (is_denied_credit q.status) (conflict 1) _ h2 in
    let (p, hp, h4) =
      or_throw-eq-ok (find? (is_player club q.player_id) db.players) (not_found 1) _ h3 in
    let (_, h5) = throw_if-eq-ok (not p.credit_enabled) (bad_request 0) _ h4 in
    let (l, _, h6) = >>=-eq-ok (approved_limit fmt limit q.amount) _ h5 in
    let pending : is_pending_credit q.status ≡ true = ground arith in
    let same = ok-injective _ r h6 in
    record {
      row = q;
      row_found = hq;
      was_pending = pending;
      of_player = rw (← same) refl;
      of_amount = rw (← same) refl;
      drawn = rw (← same) (insert-HasDrawn fmt club _ by now _);
    }
