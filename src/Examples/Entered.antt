-- ===== src/Examples/Entered.antt =====
-- Rows that staff enter, edit and cancel, on the club of Examples.
use poker_crm_backend.Base.{ℕ, ◌≡◌, refl, true, [], ◌∷◌, none, some, inl, arith}
use poker_crm_backend.Base.Int.{pos}
use poker_crm_backend.Base.Text.{codes}
use poker_crm_backend.Base.Result.{Result}
use poker_crm_backend.Entities.{
  Db, Transaction, TransactionType, TransactionStatus, GameType, completed_row,
}
use poker_crm_backend.Cashier.CreditRequests.{JsNumber}
use poker_crm_backend.Transactions.{NewTransaction, known, create_transaction}
use poker_crm_backend.Transactions.Repayment.{create_transaction-Receives, Receives}
use poker_crm_backend.Transactions.Cancelled.{cancelled-IsFinal, IsFinal, StaysEditable}
use poker_crm_backend.Transactions.Adjusted.{cancel_transaction-TakesOut, TakesOut}
use poker_crm_backend.Transactions.Edits.{cancel_transaction}
use poker_crm_backend.Examples.{club_night, one_digit, succeeds, value, value-ok}
use poker_crm_backend.Base.Text.{trim, trim_start, is_space}
use poker_crm_backend.Cashier.CreditRequests.{long_notes}
use poker_crm_backend.Transactions.{
  check_type, check_entered, is_club_buy_in, entered_row, has_credit, is_transaction,
  find_transaction, eq_status,
}
use poker_crm_backend.Floor.Waitlist.{club_exists}
use poker_crm_backend.Base.Rows.{find?}
use poker_crm_backend.Floor.Seating.Assign.{is_player}
use poker_crm_backend.Ledger.NetWorth.{net_worth}
use poker_crm_backend.Transactions.Repayment.{repayment}
use poker_crm_backend.Ledger.{wallet_balance}
use poker_crm_backend.Transactions.Replaced.{AreKeysDistinct}
use poker_crm_backend.Base.Int.{◌+ℤ◌}

abbrev body : TransactionType → ℕ → NewTransaction
body type a = record {
  txn_type = known type;
  player_key = codes "7";
  player_id = 7;
  player_name = codes "Asha";
  amount = JsNumber.amount (pos a);
  notes = none;
  game_type = none;
}

-- Asha owes the club 500, and pays 300 in.
abbrev owing : Db
owing = record club_night {
  ledger =
      completed_row 1 7 (codes "Asha") (pos 500) TransactionType.withdrawal GameType.poker
        (codes "x") 5 40
      ∷ [];
}

abbrev paid_in : Result (Transaction × Db)
paid_in = create_transaction one_digit 1 (body TransactionType.club_buy_in 300) 9 owing

paid_in_succeeds : succeeds paid_in ≡ true
unfolding create_transaction trim trim_start is_space long_notes check_type check_entered
    club_exists find?
paid_in_succeeds = refl

paid_type : is_club_buy_in (value paid_in paid_in_succeeds).0.txn_type ≡ true
unfolding create_transaction trim trim_start is_space long_notes check_type check_entered
    club_exists is_club_buy_in entered_row find?
paid_type = refl

paid_credit : has_credit (find? (is_player 1 7) owing.players) ≡ true
unfolding has_credit find? is_player
paid_credit = refl

abbrev paid : Transaction × Db
paid = value paid_in paid_in_succeeds

create_transaction-Receives_example :
    Receives 1 7 6 paid.0.amount owing.ledger paid.1.ledger
    × (net_worth 1 7 6 paid.1.ledger
        ≡ net_worth 1 7 6 owing.ledger
          +ℤ paid.0.amount
          +ℤ repayment paid.0.amount (wallet_balance 1 7 owing.ledger))
create_transaction-Receives_example =
    create_transaction-Receives one_digit 1 6 (body TransactionType.club_buy_in 300) 9 owing
      (omega arith) (value-ok paid_in paid_in_succeeds) paid_type paid_credit

abbrev cancellation : Result (Transaction × Db)
cancellation = cancel_transaction 1 10 (some (codes "double")) (some 2) 70 club_night

cancellation_succeeds : succeeds cancellation ≡ true
unfolding cancel_transaction find_transaction is_transaction find? eq_status
cancellation_succeeds = refl

cancelled-IsFinal_example :
    IsFinal 1 10 (value cancellation cancellation_succeeds).1
    × StaysEditable 1 10 TransactionStatus.cancelled (value cancellation cancellation_succeeds).1
cancelled-IsFinal_example =
    cancelled-IsFinal 1 10 (some (codes "double")) (some 2) 70 club_night
      (inl (value-ok cancellation cancellation_succeeds))

abbrev deposit_row : Transaction
deposit_row =
    completed_row 1 7 (codes "Asha") (pos 1000) TransactionType.deposit GameType.poker (codes "x") 5
      10

club_night_keys : AreKeysDistinct club_night.ledger
club_night_keys = ((refl, tt), (tt, tt))

deposit_found : find? (is_transaction 1 10) club_night.ledger ≡ some deposit_row
unfolding find? is_transaction
deposit_found = refl

cancel_transaction-TakesOut_example :
    TakesOut deposit_row club_night.ledger (value cancellation cancellation_succeeds).1.ledger
cancel_transaction-TakesOut_example =
    cancel_transaction-TakesOut 1 10 (some (codes "double")) (some 2) 70 club_night deposit_row
      club_night_keys deposit_found (value-ok cancellation cancellation_succeeds)
