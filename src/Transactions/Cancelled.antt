-- ===== src/Transactions/Cancelled.antt =====
-- A cancelled row of the ledger: the operations of
-- src/clubs/services/financial-transactions.service.ts that refuse it, and the edit of
-- src/clubs/services/financial-overrides.service.ts, which does not.
use poker_crm_backend.Base.{
  ℕ, ◌≡◌, refl, true, Option, some, ◌==◌, &&-parts, arith, List, Bool-cases, inl, inr,
}
use poker_crm_backend.Base.Int.{ℤ}
use poker_crm_backend.Base.Text.{Text}
use poker_crm_backend.Base.Result.{
  ok, err, conflict, not_found, throw_if-eq-ok, or_throw-eq-ok, ok-injective,
}
use poker_crm_backend.Base.Rows.{find?, find?-saved, find?-sound}
use poker_crm_backend.Entities.{Db, Transaction, TransactionStatus}
use poker_crm_backend.Transactions.{is_transaction, find_transaction, save_transaction, eq_status}
use mathlib.Core.Logic.{◌⊎◌}
use poker_crm_backend.Transactions.Overrides.{
  Payouts, transaction, edit_any_transaction, overridden_row,
}
use poker_crm_backend.Transactions.Edits.{
  TransactionPatch, update_transaction, cancel, edit_transaction, cancel_transaction, cancelled_row,
}

-- The row is there with that status.
pub record HasStatus (club id : ℕ) (status : TransactionStatus) (rows : List Transaction)
    : Type 0 where
  pub row : Transaction
  pub found : find? (is_transaction club id) rows ≡ some row
  pub same : row.status ≡ status

find?-save_transaction :
    (club id : ℕ) (t t' : Transaction) (db : Db)
    → find? (is_transaction club id) db.ledger ≡ some t
    → t'.id ≡ t.id
    → t'.club_id ≡ t.club_id
    → find? (is_transaction club id) (save_transaction t' db).ledger ≡ some t'
unfolding save_transaction is_transaction
find?-save_transaction club id t t' db h same same_club =
    let mine = find?-sound (is_transaction club id) db.ledger h in
    let (here, _) = &&-parts (t.id == id) (t.club_id == club) mine in
    let weaker : (o : Transaction) → is_transaction club id o ≡ true → (o.id == t'.id) ≡ true =
      (λ o e. ground arith) in
    find?-saved (is_transaction club id) (λ (o : Transaction). o.id == t'.id) t' db.ledger weaker
      (simp (same, same_club) mine) h

saved-HasStatus :
    (club id : ℕ) (t t' : Transaction) (db : Db)
    → find? (is_transaction club id) db.ledger ≡ some t
    → t'.id ≡ t.id
    → t'.club_id ≡ t.club_id
    → HasStatus club id t'.status (save_transaction t' db).ledger
saved-HasStatus club id t t' db h same same_club = record {
  row = t';
  found = find?-save_transaction club id t t' db h same same_club;
  same = refl;
}

pub cancelled_row_cases :
    (reason : Option Text) (user : Option ℕ) (now : ℕ) (t : Transaction)
    → let t' = cancelled_row reason user now t in
      (t'.status ≡ TransactionStatus.cancelled)
      × (t'.id ≡ t.id)
      × (t'.club_id ≡ t.club_id)
      × (t'.player_id ≡ t.player_id)
      × (t'.created_at ≡ t.created_at)
unfolding cancelled_row
cancelled_row_cases reason user now t =
    elim (Bool-cases (eq_status t.status TransactionStatus.completed)) [
      | inl e ↦ rw e (refl, refl, refl, refl, refl)
      | inr e ↦ rw e (refl, refl, refl, refl, refl)
    ]

-- update, cancel, editTransaction and cancelTransaction refuse the row as a conflict.
pub record IsFinal (club id : ℕ) (db : Db) : Type 0 where
  pub no_update :
      (d : TransactionPatch) (now : ℕ) → update_transaction club id d now db ≡ err (conflict 0)
  pub no_cancel : (now : ℕ) → cancel club id now db ≡ err (conflict 0)
  pub no_edit :
      (a : ℤ) (reason : Text) (user : Option ℕ) (now : ℕ)
      → edit_transaction club id a reason user now db ≡ err (conflict 0)
  pub no_cancellation :
      (reason : Option Text) (user : Option ℕ) (now : ℕ)
      → cancel_transaction club id reason user now db ≡ err (conflict 0)

HasStatus-IsFinal :
    (club id : ℕ) (db : Db)
    → HasStatus club id TransactionStatus.cancelled db.ledger
    → IsFinal club id db
unfolding find_transaction update_transaction cancel edit_transaction cancel_transaction eq_status
HasStatus-IsFinal club id db h = record {
  no_update = λ d now. rw (h.found, h.same) refl;
  no_cancel = λ now. rw (h.found, h.same) refl;
  no_edit = λ a reason user now. rw (h.found, h.same) refl;
  no_cancellation = λ reason user now. rw (h.found, h.same) refl;
}

-- An edit of any transaction saves the row with the new amount, under the status that it had.
pub record StaysEditable (club id : ℕ) (status : TransactionStatus) (db : Db) : Type 0 where
  pub edits :
      (a : ℤ) (reason : Text) (user : Option ℕ) (now : ℕ) (p : Payouts)
      → (t : Transaction) × (db' : Db) × (edit_any_transaction club id a reason user now db p
          ≡ ok (transaction t, db', p))
        × (find? (is_transaction club id) db'.ledger ≡ some t)
        × (t.amount ≡ a)
        × (t.status ≡ status)

HasStatus-StaysEditable :
    (club id : ℕ) (status : TransactionStatus) (db : Db)
    → HasStatus club id status db.ledger
    → StaysEditable club id status db
unfolding edit_any_transaction overridden_row
HasStatus-StaysEditable club id status db h = record {
  edits = λ a reason user now p.
      let t' = overridden_row a reason user now h.row in
      (
        t',
        save_transaction t' db,
        rw (edit_any_transaction, h.found) refl,
        find?-save_transaction club id h.row t' db h.found refl refl,
        refl,
        h.same,
      );
}

cancel_transaction-HasStatus :
    (club id : ℕ) (reason : Option Text) (user : Option ℕ) (now : ℕ) (db : Db)
    {r : Transaction × Db}
    → cancel_transaction club id reason user now db ≡ ok r
    → HasStatus club id TransactionStatus.cancelled r.1.ledger
unfolding cancel_transaction find_transaction
cancel_transaction-HasStatus club id reason user now db {r} h =
    let (t, ht, h1) = or_throw-eq-ok (find? (is_transaction club id) db.ledger) (not_found 0) _ h in
    let (_, h2) =
      throw_if-eq-ok (eq_status t.status TransactionStatus.cancelled) (conflict 0) _ h1 in
    let (status, same, same_club, _, _) = cancelled_row_cases reason user now t in
    rw (← ok-injective _ r h2) (rw (← status) (saved-HasStatus club id t _ db ht same same_club))

cancel-HasStatus :
    (club id now : ℕ) (db : Db) {r : Transaction × Db}
    → cancel club id now db ≡ ok r
    → HasStatus club id TransactionStatus.cancelled r.1.ledger
unfolding cancel find_transaction
cancel-HasStatus club id now db {r} h =
    let (t, ht, h1) = or_throw-eq-ok (find? (is_transaction club id) db.ledger) (not_found 0) _ h in
    let (_, h2) =
      throw_if-eq-ok (eq_status t.status TransactionStatus.cancelled) (conflict 0) _ h1 in
    let (_, h3) =
      throw_if-eq-ok (eq_status t.status TransactionStatus.completed) (conflict 1) _ h2 in
    rw (← ok-injective _ r h3) (saved-HasStatus club id t _ db ht refl refl)

-- A row that cancelTransaction or cancel has cancelled refuses every later update, cancel,
-- editTransaction and cancelTransaction as a conflict; but editAnyTransaction, which looks at no
-- status, still saves it with any amount, and it stays cancelled.
pub cancelled-IsFinal :
    (club id : ℕ) (reason : Option Text) (user : Option ℕ) (now : ℕ) (db : Db)
    {r : Transaction × Db}
    → (cancel_transaction club id reason user now db ≡ ok r) ⊎ (cancel club id now db ≡ ok r)
    → IsFinal club id r.1 × StaysEditable club id TransactionStatus.cancelled r.1
cancelled-IsFinal club id reason user now db {r} h =
    let off : HasStatus club id TransactionStatus.cancelled r.1.ledger = (elim h [
      | inl e ↦ cancel_transaction-HasStatus club id reason user now db e
      | inr e ↦ cancel-HasStatus club id now db e
    ]) in
    (
      HasStatus-IsFinal club id r.1 off,
      HasStatus-StaysEditable club id TransactionStatus.cancelled r.1 off,
    )
