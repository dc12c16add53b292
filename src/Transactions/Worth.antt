-- ===== src/Transactions/Worth.antt =====
-- What create of src/clubs/services/financial-transactions.service.ts does to the balances.
use poker_crm_backend.Base.{
  ℕ, Bool, ◌≤◌, ◌≡◌, refl, false, List, ◌∷◌, ◌&&◌, if◌then◌else◌, Bool-cases, inl, inr,
}
use poker_crm_backend.Base.Int.{ℤ, pos, ◌+ℤ◌, ◌-ℤ◌, ◌<ℤ◌, ◌≤ℤ◌, ltb_ℤ}
use poker_crm_backend.Base.Result.{ok}
use poker_crm_backend.Entities.{Db, Transaction, TransactionType, post}
use poker_crm_backend.Ledger.{
  wallet_balance, credit_balance, session_chips, wallet_delta, credit_delta, chips_delta,
}
use poker_crm_backend.Ledger.Balances.{KeepsOthers, KeepsOthers-refl}
use poker_crm_backend.Ledger.Posted.{
  counted, wallet_balance_posted, credit_balance_posted, session_chips_posted, KeepsOthers-posted,
}
use poker_crm_backend.Floor.Format.{NumberFormat}
use poker_crm_backend.Cashier.CreditRequests.{JsNumber, max_credit}
use poker_crm_backend.Transactions.{
  NewTransaction, known, create_transaction, entered_row, is_club_buy_in, has_credit,
  post_repayment, auto_completes,
}
use poker_crm_backend.Base.Rows.{find?}
use poker_crm_backend.Floor.Seating.Assign.{is_player}
use poker_crm_backend.Entities.Ledger.{TransactionStatus}
use poker_crm_backend.Transactions.{repaid_part}
use poker_crm_backend.Transactions.Accepted.{create_transaction-IsEntered}

-- The balances of the player after one row of the player's in a ledger.
pub record Counts (since : ℕ) (t : Transaction) (ts ts' : List Transaction) : Type 0 where
  pub wallet :
      wallet_balance t.club_id t.player_id ts'
      ≡ counted wallet_delta t +ℤ wallet_balance t.club_id t.player_id ts
  pub credit :
      credit_balance t.club_id t.player_id ts'
      ≡ counted credit_delta t +ℤ credit_balance t.club_id t.player_id ts
  pub chips :
      session_chips t.club_id t.player_id since ts'
      ≡ counted chips_delta t +ℤ session_chips t.club_id t.player_id since ts
  pub keeps_others : KeepsOthers t.club_id t.player_id ts ts'

pub Counts-posted :
    (since : ℕ) (t : Transaction) (ts : List Transaction)
    → since ≤ t.created_at
    → Counts since t ts (t ∷ ts)
Counts-posted since t ts late = record {
  wallet = wallet_balance_posted t ts;
  credit = credit_balance_posted t ts;
  chips = session_chips_posted t ts since late;
  keeps_others = KeepsOthers-posted t ts ts (KeepsOthers-refl ts);
}

-- The five types that wait, and the eleven that are completed as they are entered.
abbrev pub entered_status : TransactionType → TransactionStatus
entered_status TransactionType.credit = TransactionStatus.pending
entered_status TransactionType.tournament_win = TransactionStatus.pending
entered_status TransactionType.rake = TransactionStatus.pending
entered_status TransactionType.tip = TransactionStatus.pending
entered_status TransactionType.register = TransactionStatus.pending
entered_status _ = TransactionStatus.completed

auto_completes-entered_status :
    (type : TransactionType)
    → (if auto_completes type then TransactionStatus.completed else TransactionStatus.pending)
      ≡ entered_status type
unfolding auto_completes
auto_completes-entered_status TransactionType.deposit = refl
auto_completes-entered_status TransactionType.cashout = refl
auto_completes-entered_status TransactionType.withdrawal = refl
auto_completes-entered_status TransactionType.bonus = refl
auto_completes-entered_status TransactionType.credit = refl
auto_completes-entered_status TransactionType.refund = refl
auto_completes-entered_status TransactionType.tournament_win = refl
auto_completes-entered_status TransactionType.rake = refl
auto_completes-entered_status TransactionType.tip = refl
auto_completes-entered_status TransactionType.buy_in = refl
auto_completes-entered_status TransactionType.register = refl
auto_completes-entered_status TransactionType.club_buy_in = refl
auto_completes-entered_status TransactionType.club_buy_out = refl
auto_completes-entered_status TransactionType.table_buy_in = refl
auto_completes-entered_status TransactionType.table_buy_out = refl
auto_completes-entered_status TransactionType.debit = refl

-- The row that is entered says what the body says, and its status is that of its type.
pub record SaysBody (club : ℕ) (d : NewTransaction) (t : Transaction) : Type 0 where
  pub is_type : d.txn_type ≡ known t.txn_type
  pub is_amount : d.amount ≡ JsNumber.amount t.amount
  pub owner : (t.club_id ≡ club) × (t.player_id ≡ d.player_id)
  pub above : pos 0 <ℤ t.amount
  pub below : t.amount ≤ℤ max_credit
  pub completes : t.status ≡ entered_status t.txn_type

pub entered_row-SaysBody :
    (club : ℕ) (d : NewTransaction) (type : TransactionType) (a : ℤ) (now id : ℕ)
    → d.txn_type ≡ known type
    → d.amount ≡ JsNumber.amount a
    → pos 0 <ℤ a
    → a ≤ℤ max_credit
    → SaysBody club d (entered_row club d type a now id)
unfolding entered_row
entered_row-SaysBody club d type a now id is_type is_amount above below = record {
  is_type = is_type;
  is_amount = is_amount;
  owner = (refl, refl);
  above = above;
  below = below;
  completes = auto_completes-entered_status type;
}

pub create_transaction-SaysBody :
    (fmt : NumberFormat) (club : ℕ) (d : NewTransaction) (now : ℕ) (db : Db) {r : Transaction × Db}
    → create_transaction fmt club d now db ≡ ok r
    → SaysBody club d r.0
create_transaction-SaysBody fmt club d now db {r} h =
    let e = create_transaction-IsEntered fmt club d now db h in
    rw (← e.result)
      (entered_row-SaysBody club d e.type e.a now db.next_id e.is_type e.is_amount e.above e.below)

-- Whether create posts a repayment: a club buy-in of a player with credit.
abbrev pub repays : ℕ → NewTransaction → TransactionType → Db → Bool
repays club d type db =
    is_club_buy_in type && has_credit (find? (is_player club d.player_id) db.players)

-- An accepted row that comes without a repayment changes the balances by what it counts for.
pub create_transaction-Counts :
    (fmt : NumberFormat) (club since : ℕ) (d : NewTransaction) (now : ℕ) (db : Db)
    {r : Transaction × Db}
    → since ≤ now
    → create_transaction fmt club d now db ≡ ok r
    → repays club d r.0.txn_type db ≡ false
    → Counts since r.0 db.ledger r.1.ledger
create_transaction-Counts fmt club since d now db {r} late h other =
    let e = create_transaction-IsEntered fmt club d now db h in
    let plain : repays club d e.type db ≡ false =
      (unfold entered_row in (rw (← e.result) at other)) in
    rw (← e.result, plain) (unfold entered_row in Counts-posted since _ db.ledger late)

-- No accepted row changes the balances of another account.
pub create_transaction-KeepsOthers :
    (fmt : NumberFormat) (club : ℕ) (d : NewTransaction) (now : ℕ) (db : Db) {r : Transaction × Db}
    → create_transaction fmt club d now db ≡ ok r
    → KeepsOthers club d.player_id db.ledger r.1.ledger
unfolding post_repayment
create_transaction-KeepsOthers fmt club d now db {r} h =
    let e = create_transaction-IsEntered fmt club d now db h in
    let row = entered_row club d e.type e.a now in
    let saved : KeepsOthers club d.player_id db.ledger (post row db).ledger =
      (unfold entered_row in
        KeepsOthers-posted (row db.next_id) db.ledger db.ledger (KeepsOthers-refl db.ledger)) in
    rw (← e.result) (elim (Bool-cases (repays club d e.type db)) [
      | inr plain ↦ rw plain saved
      | inl pays ↦
          let due = repaid_part e.a (wallet_balance club d.player_id (post row db).ledger -ℤ e.a) in
          rw pays (elim (Bool-cases (ltb_ℤ (pos 40) due)) [
            | inr none_due ↦ rw none_due saved
            | inl some_due ↦ rw some_due (KeepsOthers-posted _ (post row db).ledger db.ledger saved)
          ])
    ])
