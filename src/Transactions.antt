-- ===== src/Transactions.antt =====
-- src/clubs/services/financial-transactions.service.ts: rows that staff enter by hand, and what
-- they may change of a row afterwards.
pub mod Edits
pub mod Accepted
pub mod Worth
pub mod Entered
pub mod Overrides
pub mod Adjusted
pub mod Replaced
pub mod Cancelled
pub mod Repayment
use poker_crm_backend.Base.{
  ℕ, ◌+◌, ◌*◌, ◌/◌, Bool, true, false, not, Option, none, some, List, ◌∷◌, ◌++◌, ◌&&◌, ◌||◌, ◌==◌,
  ltb, if◌then◌else◌, is_some,
}
use poker_crm_backend.Base.Int.{ℤ, pos, negsuc, ◌-ℤ◌, neg, ltb_ℤ, leb_ℤ, min_ℤ, max_ℤ}
use poker_crm_backend.Base.Result.{
  Result, ok, err, bad_request, not_found, conflict, ◌>>=◌, ◌>>◌, throw_if, or_throw,
}
use poker_crm_backend.Base.Text.{Text, codes, is_empty, text_length, trim}
use poker_crm_backend.Base.Rows.{find?, update_where, select}
use poker_crm_backend.Entities.{
  Db, Player, Transaction, TransactionType, TransactionStatus, GameType, new_row, post,
}
use poker_crm_backend.Ledger.{wallet_balance}
use poker_crm_backend.Floor.Format.{NumberFormat}
use poker_crm_backend.Floor.Waitlist.{club_exists}
use poker_crm_backend.Floor.Seating.Assign.{is_player}
use poker_crm_backend.Cashier.CreditRequests.{
  JsNumber, missing, not_a_number, long_notes, trimmed_notes, max_credit,
}

-- The type of a request body: absent, not among the types, or one of them.
pub data JsType : Type 0 where
  no_type : JsType
  unknown_type : JsType
  known : TransactionType → JsType

-- The body of create. `player_key` is the text of the id, and `player_id` the player that the
-- trimmed text names.
pub record NewTransaction : Type 0 where
  pub txn_type : JsType
  pub player_key : Text
  pub player_id : ℕ
  pub player_name : Text
  pub amount : JsNumber
  pub notes : Option Text
  pub game_type : Option GameType

unfoldable pub check_type : JsType → Result TransactionType
check_type no_type = err (bad_request 0)
check_type unknown_type = err (bad_request 1)
check_type (known type) = ok type

unfoldable pub check_entered : JsNumber → Result ℤ
check_entered missing = err (bad_request 6)
check_entered not_a_number = err (bad_request 7)
check_entered (JsNumber.amount a) = do
  throw_if (leb_ℤ a (pos 0)) (bad_request 8)
  throw_if (ltb_ℤ max_credit a) (bad_request 9)
  ok a

-- The list of shouldAutoComplete.
unfoldable pub auto_completes : TransactionType → Bool
auto_completes TransactionType.deposit = true
auto_completes TransactionType.buy_in = true
auto_completes TransactionType.withdrawal = true
auto_completes TransactionType.cashout = true
auto_completes TransactionType.club_buy_in = true
auto_completes TransactionType.club_buy_out = true
auto_completes TransactionType.table_buy_in = true
auto_completes TransactionType.table_buy_out = true
auto_completes TransactionType.debit = true
auto_completes TransactionType.bonus = true
auto_completes TransactionType.refund = true
auto_completes _ = false

unfoldable pub entered_row : ℕ → NewTransaction → TransactionType → ℤ → ℕ → ℕ → Transaction
entered_row club d type a now =
    new_row club d.player_id (trim d.player_name) a type d.game_type (trimmed_notes d.notes)
      (if auto_completes type then TransactionStatus.completed else TransactionStatus.pending) now

-- `Math.round(n * 100) / 100`, of an amount in ten-thousandths.
unfoldable pub round_cents : ℤ → ℤ
round_cents (pos n) = pos ((n + 50) / 100 * 100)
round_cents (negsuc n) = neg (pos ((n + 50) / 100 * 100))

unfoldable pub repayment_note : NumberFormat → ℤ → Text
repayment_note fmt a =
    codes "Club buy-in — "
    ++ (codes "credit line repayment"
        ++ (codes " (₹" ++ (fmt.fixed_text a ++ codes " toward facility)")))

-- The part of a cash amount that a negative wallet takes up.
unfoldable pub repaid_part : ℤ → ℤ → ℤ
repaid_part a wallet_before = min_ℤ a (max_ℤ (pos 0) (neg wallet_before))

-- The row that create adds to a club buy-in of a player with credit.
unfoldable pub post_repayment : NumberFormat → ℕ → NewTransaction → ℤ → ℕ → Db → Db
post_repayment fmt club d a now db =
    let wallet_after = wallet_balance club d.player_id db.ledger in
    let repay = repaid_part a (wallet_after -ℤ a) in
    if ltb_ℤ (pos 40) repay
    then post
        (new_row club d.player_id (trim d.player_name) (round_cents repay) TransactionType.debit
          d.game_type (some (repayment_note fmt (round_cents repay))) TransactionStatus.completed
          now)
        db
    else db

unfoldable pub is_club_buy_in : TransactionType → Bool
is_club_buy_in TransactionType.club_buy_in = true
is_club_buy_in _ = false

-- `player && player.creditEnabled`
unfoldable pub has_credit : Option Player → Bool
has_credit none = false
has_credit (some p) = p.credit_enabled

-- create
unfoldable pub create_transaction :
    NumberFormat → ℕ → NewTransaction → ℕ → Db → Result (Transaction × Db)
create_transaction fmt club d now db = do
  type ← check_type d.txn_type
  throw_if (is_empty (trim d.player_key)) (bad_request 2)
  throw_if (ltb 100 (text_length (trim d.player_key))) (bad_request 3)
  throw_if (is_empty (trim d.player_name)) (bad_request 4)
  throw_if (ltb 200 (text_length (trim d.player_name))) (bad_request 5)
  a ← check_entered d.amount
  throw_if (long_notes d.notes) (bad_request 10)
  throw_if (not (club_exists club db)) (not_found 0)
  let saved = post (entered_row club d type a now) db
  ok (
    entered_row club d type a now db.next_id,
    if is_club_buy_in type && has_credit (find? (is_player club d.player_id) db.players)
        then post_repayment fmt club d a now saved
        else saved,
  )

unfoldable pub is_transaction : ℕ → ℕ → Transaction → Bool
is_transaction club id t = t.id == id && t.club_id == club

-- findOne
unfoldable pub find_transaction : ℕ → ℕ → Db → Result Transaction
find_transaction club id db = or_throw (find? (is_transaction club id) db.ledger) (not_found 0)

unfoldable pub eq_status : TransactionStatus → TransactionStatus → Bool
eq_status TransactionStatus.pending TransactionStatus.pending = true
eq_status TransactionStatus.completed TransactionStatus.completed = true
eq_status TransactionStatus.cancelled TransactionStatus.cancelled = true
eq_status TransactionStatus.failed TransactionStatus.failed = true
eq_status _ _ = false

-- findAll: the newest row stands first.
unfoldable pub find_transactions : ℕ → Option TransactionStatus → Db → List Transaction
find_transactions club none db = select (λ (t : Transaction). t.club_id == club) db.ledger
find_transactions club (some s) db =
    select (λ (t : Transaction). t.club_id == club && eq_status t.status s) db.ledger

-- `repo.save(transaction)`, which also moves `updated_at`.
unfoldable pub save_transaction : Transaction → Db → Db
save_transaction t db = record db {
  ledger = update_where (λ (o : Transaction). o.id == t.id) (λ _. t) db.ledger;
}
