-- ===== src/Transactions/Edits.antt =====
-- The operations of src/clubs/services/financial-transactions.service.ts on a row that is there.
use poker_crm_backend.Base.{
  ℕ, Bool, true, false, not, Option, none, some, ◌∷◌, ◌&&◌, if◌then◌else◌, is_some,
}
use poker_crm_backend.Base.Int.{ℤ, pos, leb_ℤ, ltb_ℤ}
use poker_crm_backend.Base.Result.{Result, ok, err, bad_request, conflict, ◌>>=◌, ◌>>◌, throw_if}
use poker_crm_backend.Base.Text.{Text, codes, is_empty}
use poker_crm_backend.Entities.{Db, Transaction, TransactionStatus}
use poker_crm_backend.Cashier.CreditRequests.{
  JsNumber, missing, not_a_number, long_notes, trimmed_notes, max_credit,
}
use poker_crm_backend.Transactions.{find_transaction, save_transaction, eq_status}

-- The status of a request body: absent, not among the states, or one of them.
pub data JsStatus : Type 0 where
  no_status : JsStatus
  unknown_status : JsStatus
  known_status : TransactionStatus → JsStatus

pub record TransactionPatch : Type 0 where
  pub amount : JsNumber
  pub notes : Option Text
  pub status : JsStatus

-- `data.amount !== undefined`
unfoldable pub gives_amount : JsNumber → Bool
gives_amount missing = false
gives_amount _ = true

-- The amount after an update that may leave it out.
unfoldable pub updated_amount : JsNumber → ℤ → Result ℤ
updated_amount missing old = ok old
updated_amount not_a_number old = err (bad_request 0)
updated_amount (JsNumber.amount a) old = do
  throw_if (leb_ℤ a (pos 0)) (bad_request 1)
  throw_if (ltb_ℤ max_credit a) (bad_request 2)
  ok a

unfoldable pub updated_status : JsStatus → TransactionStatus → Result TransactionStatus
updated_status no_status old = ok old
updated_status unknown_status old = err (bad_request 4)
updated_status (known_status s) old = do
  throw_if
      (eq_status old TransactionStatus.completed && not (eq_status s TransactionStatus.completed))
      (conflict 2)
  ok s

-- Blank notes become `undefined`, which `save` leaves as they were.
unfoldable pub updated_notes : Option Text → Option Text → Option Text
updated_notes given old = if is_some (trimmed_notes given) then trimmed_notes given else old

-- update
unfoldable pub update_transaction : ℕ → ℕ → TransactionPatch → ℕ → Db → Result (Transaction × Db)
update_transaction club id d now db = do
  t ← find_transaction club id db
  throw_if (eq_status t.status TransactionStatus.cancelled) (conflict 0)
  throw_if (eq_status t.status TransactionStatus.completed && gives_amount d.amount) (conflict 1)
  a ← updated_amount d.amount t.amount
  throw_if (long_notes d.notes) (bad_request 3)
  s ← updated_status d.status t.status
  let t' = record t {
    amount = a;
    notes = updated_notes d.notes t.notes;
    status = s;
    updated_at = now;
  }
  ok (t', save_transaction t' db)

-- cancel
unfoldable pub cancel : ℕ → ℕ → ℕ → Db → Result (Transaction × Db)
cancel club id now db = do
  t ← find_transaction club id db
  throw_if (eq_status t.status TransactionStatus.cancelled) (conflict 0)
  throw_if (eq_status t.status TransactionStatus.completed) (conflict 1)
  let t' = record t { status = TransactionStatus.cancelled; updated_at = now }
  ok (t', save_transaction t' db)

-- The amount before the first override.
unfoldable pub kept_original : Transaction → Option ℤ
kept_original t = if t.is_overridden then t.original_amount else some t.amount

-- A user id that is `undefined` is left as it was by `save`.
unfoldable pub or_kept : Option ℕ → Option ℕ → Option ℕ
or_kept none old = old
or_kept (some user) old = some user

-- editTransaction: the body's amount is a number, which its DTO demands.
unfoldable pub edit_transaction : ℕ → ℕ → ℤ → Text → Option ℕ → ℕ → Db → Result (Transaction × Db)
edit_transaction club id amount reason user now db = do
  t ← find_transaction club id db
  throw_if (eq_status t.status TransactionStatus.cancelled) (conflict 0)
  let t' = record t {
    amount = amount;
    original_amount = kept_original t;
    is_overridden = true;
    override_reason = some reason;
    overridden_by = or_kept user t.overridden_by;
    overridden_at = some now;
    updated_at = now;
  }
  ok (t', save_transaction t' db)

-- `dto.reason || 'Transaction cancelled by admin'`
unfoldable pub reason_or_default : Option Text → Text
reason_or_default none = codes "Transaction cancelled by admin"
reason_or_default (some s) = if is_empty s then codes "Transaction cancelled by admin" else s

-- `overrideReason || dto.reason`, where an empty text counts as none.
unfoldable pub reason_if_none : Option Text → Option Text → Option Text
reason_if_none (some (c ∷ s)) given = some (c ∷ s)
reason_if_none old (some (c ∷ s)) = some (c ∷ s)
reason_if_none old given = old

-- The override marks that the cancellation of a completed row sets.
unfoldable pub cancelled_row : Option Text → Option ℕ → ℕ → Transaction → Transaction
cancelled_row reason user now t =
    if eq_status t.status TransactionStatus.completed
    then record t {
      status = TransactionStatus.cancelled;
      original_amount = kept_original t;
      is_overridden = true;
      override_reason = some (reason_or_default reason);
      overridden_by = or_kept user t.overridden_by;
      overridden_at = some now;
      updated_at = now;
    }
    else record t {
      status = TransactionStatus.cancelled;
      override_reason = reason_if_none t.override_reason reason;
      updated_at = now;
    }

-- cancelTransaction
unfoldable pub cancel_transaction :
    ℕ → ℕ → Option Text → Option ℕ → ℕ → Db → Result (Transaction × Db)
cancel_transaction club id reason user now db = do
  t ← find_transaction club id db
  throw_if (eq_status t.status TransactionStatus.cancelled) (conflict 0)
  let t' = cancelled_row reason user now t
  ok (t', save_transaction t' db)
