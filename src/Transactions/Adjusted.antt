-- ===== src/Transactions/Adjusted.antt =====
-- What the overrides of src/clubs/services/financial-transactions.service.ts do to the balances and
-- to the trail that a row keeps.
use mathlib.Core.Option.{some-injective}
use mathlib.Core.Path.{sym}
use poker_crm_backend.Base.{ℕ, ◌≡◌, refl, true, Option, some, ◌∙◌, List, leb}
use poker_crm_backend.Base.Int.{ℤ, pos, ◌-ℤ◌, int_laws}
use poker_crm_backend.Base.Text.{Text}
use poker_crm_backend.Base.Result.{
  ok, conflict, not_found, throw_if-eq-ok, or_throw-eq-ok, ok-injective,
}
use poker_crm_backend.Base.Rows.{find?, find?-mem}
use poker_crm_backend.Entities.{Db, Transaction, TransactionStatus}
use poker_crm_backend.Ledger.{
  wallet_balance, credit_balance, session_chips, wallet_delta, credit_delta, chips_delta,
}
use poker_crm_backend.Ledger.Balances.{KeepsOthers}
use poker_crm_backend.Ledger.Posted.{counted}
use poker_crm_backend.Transactions.{is_transaction, find_transaction, save_transaction, eq_status}
use poker_crm_backend.Transactions.Edits.{edit_transaction, cancel_transaction, kept_original}
use poker_crm_backend.Transactions.Replaced.{AreKeysDistinct, Replaces, with_row-Replaces}
use poker_crm_backend.Transactions.Cancelled.{cancelled_row_cases}

saved-Replaces :
    (club id : ℕ) (t t' : Transaction) (db : Db)
    → AreKeysDistinct db.ledger
    → find? (is_transaction club id) db.ledger ≡ some t
    → t'.id ≡ t.id
    → t'.club_id ≡ t.club_id
    → t'.player_id ≡ t.player_id
    → t'.created_at ≡ t.created_at
    → Replaces t t' db.ledger (save_transaction t' db).ledger
unfolding save_transaction
saved-Replaces club id t t' db keys h same same_club same_player same_time = simp same (
    with_row-Replaces t t' db.ledger keys (find?-mem _ db.ledger h) same_club same_player same_time)

-- An edit of a row, in a ledger whose ids are distinct, sets the amount, keeps the type and the
-- status, and the balances of the row's player lose what the old row counted for and gain what the
-- row with the new amount counts for; those of every other account stay. The row keeps as its
-- original amount the one that it had before it was first overridden.
pub edit_transaction-Replaces :
    (club id : ℕ) (amount : ℤ) (reason : Text) (user : Option ℕ) (now : ℕ) (db : Db)
    (t : Transaction) {r : Transaction × Db}
    → AreKeysDistinct db.ledger
    → find? (is_transaction club id) db.ledger ≡ some t
    → edit_transaction club id amount reason user now db ≡ ok r
    → Replaces t r.0 db.ledger r.1.ledger
      × (r.0.amount ≡ amount)
      × (r.0.txn_type ≡ t.txn_type)
      × (r.0.status ≡ t.status)
      × (r.0.original_amount ≡ kept_original t)
unfolding edit_transaction find_transaction
edit_transaction-Replaces club id amount reason user now db t {r} keys found h =
    let (u, hu, h1) = or_throw-eq-ok (find? (is_transaction club id) db.ledger) (not_found 0) _ h in
    let same : u ≡ t = some-injective u t (sym hu ∙ found) in
    let (_, h2) =
      throw_if-eq-ok (eq_status u.status TransactionStatus.cancelled) (conflict 0) _ h1 in
    rw (← ok-injective _ r h2, same)
      (saved-Replaces club id t _ db keys found refl refl refl refl, refl, refl, refl, refl)

-- A row that counts for nothing once it is cancelled.
pub record TakesOut (t : Transaction) (ts ts' : List Transaction) : Type 0 where
  pub wallet :
      wallet_balance t.club_id t.player_id ts'
      ≡ wallet_balance t.club_id t.player_id ts -ℤ counted wallet_delta t
  pub credit :
      credit_balance t.club_id t.player_id ts'
      ≡ credit_balance t.club_id t.player_id ts -ℤ counted credit_delta t
  pub chips :
      (since : ℕ)
      → leb since t.created_at ≡ true
      → session_chips t.club_id t.player_id since ts'
        ≡ session_chips t.club_id t.player_id since ts -ℤ counted chips_delta t
  pub keeps_others : KeepsOthers t.club_id t.player_id ts ts'

Replaces-TakesOut :
    (t t' : Transaction) (ts ts' : List Transaction)
    → t'.status ≡ TransactionStatus.cancelled
    → Replaces t t' ts ts'
    → TakesOut t ts ts'
Replaces-TakesOut t t' ts ts' off r =
    let none_left : (d : Transaction → ℤ) → counted d t' ≡ pos 0 = (λ d. simp off refl) in
    record {
      wallet = r.wallet ∙ rw (none_left wallet_delta) (omega int_laws);
      credit = r.credit ∙ rw (none_left credit_delta) (omega int_laws);
      chips = λ since late. r.chips since late ∙ rw (none_left chips_delta) (omega int_laws);
      keeps_others = r.keeps_others;
    }

-- A cancellation with a reason, in a ledger whose ids are distinct, takes from the balances of the
-- row's player what the row counted for, which is nothing unless it was completed; the balances of
-- every other account stay.
pub cancel_transaction-TakesOut :
    (club id : ℕ) (reason : Option Text) (user : Option ℕ) (now : ℕ) (db : Db) (t : Transaction)
    {r : Transaction × Db}
    → AreKeysDistinct db.ledger
    → find? (is_transaction club id) db.ledger ≡ some t
    → cancel_transaction club id reason user now db ≡ ok r
    → TakesOut t db.ledger r.1.ledger
unfolding cancel_transaction find_transaction
cancel_transaction-TakesOut club id reason user now db t {r} keys found h =
    let (u, hu, h1) = or_throw-eq-ok (find? (is_transaction club id) db.ledger) (not_found 0) _ h in
    let same : u ≡ t = some-injective u t (sym hu ∙ found) in
    let (_, h2) =
      throw_if-eq-ok (eq_status u.status TransactionStatus.cancelled) (conflict 0) _ h1 in
    let (off, same_id, same_club, same_player, same_time) = cancelled_row_cases reason user now t in
    rw (← ok-injective _ r h2, same)
      (Replaces-TakesOut t _ db.ledger _ off
        (saved-Replaces club id t _ db keys found same_id same_club same_player same_time))
