-- ===== src/Examples/Cashier.antt =====
-- Buy-ins, buy-outs and settlements at concrete inputs.
use poker_crm_backend.Base.{ℕ, ◌≡◌, refl, arith, true, none, some, List, [], ◌∷◌, Memᴰ}
use poker_crm_backend.Base.Int.{ℤ, pos}
use poker_crm_backend.Base.Result.{Result, ok}
use poker_crm_backend.Entities.{Db, Table, TableStatus, WaitlistStatus}
use poker_crm_backend.Floor.Tables.{is_table}
use poker_crm_backend.Floor.Seating.Assign.{assign_seat}
use poker_crm_backend.Ledger.Balances.{KeepsOthers}
use poker_crm_backend.Cashier.Settlement.{as_number, as_string, credit_owed}
use poker_crm_backend.Cashier.Accounts.{IsSettled}
use poker_crm_backend.Cashier.BuyIn.{approve_buyin_request}
use poker_crm_backend.Cashier.BuyIn.Approved.{Accepted, approve_buyin_request-Accepted}
use poker_crm_backend.Cashier.BuyIn.Decided.{approve_buyin_request-once}
use poker_crm_backend.Cashier.BuyOut.{
  approve_buyout_request, reject_buyout_request, settle_player, settle_all_players_on_table,
  settle_staff_manual_table_buyout,
}
use poker_crm_backend.Cashier.BuyOut.Settling.{Approved, approve_buyout_request-Approved}
use poker_crm_backend.Cashier.BuyOut.Decided.{
  approve_buyout_request-once, reject_buyout_request-once,
}
use poker_crm_backend.Cashier.BuyOut.Closing.{
  HasNoSeat, settle_player-IsSettled, settle_all_players_on_table-clears,
}
use poker_crm_backend.Cashier.BuyOut.Manual.{
  StaffCashesOut, settle_staff_manual_table_buyout-CashesOut,
}
use poker_crm_backend.Cashier.BuyOut.Amount.{
  approve_buyout_request-pays_nothing, approve_buyout_request-keeps_occupied,
}
use poker_crm_backend.Examples.{
  succeeds, value, value-ok, one_digit, club_night, table_of, entry_of,
}
use poker_crm_backend.Cashier.BuyIn.{is_buyin}
use poker_crm_backend.Base.Rows.{find?}
use poker_crm_backend.Floor.Waitlist.{or_default}
use poker_crm_backend.Cashier.BuyIn.Decided.{RefusesBuyIn}
use poker_crm_backend.Cashier.BuyOut.Decided.{RefusesBuyOut}
use poker_crm_backend.Cashier.BuyOut.{BuyOutResult, approved_amount, seats_player_at}
use poker_crm_backend.Cashier.Settlement.{is_buyout, final_amount, seats_player}
use poker_crm_backend.Ledger.NetWorth.{Conserves}
use poker_crm_backend.Cashier.Conservation.{
  approve_buyout_request-Conserves, settle_all_players_on_table-Conserves,
}
use poker_crm_backend.Cashier.Conservation.{settle_staff_manual_table_buyout-Conserves}

-- Bala buys 200 more chips.
abbrev buyin : Result (ℤ × Db)
buyin = approve_buyin_request one_digit 1 40 none 9 60 club_night

buyin_succeeds : succeeds buyin ≡ true
unfolding approve_buyin_request is_buyin find? or_default
buyin_succeeds = refl

approve_buyin_request-Accepted_example :
    Accepted one_digit 1 40 none 60 club_night (value buyin buyin_succeeds)
approve_buyin_request-Accepted_example =
    approve_buyin_request-Accepted one_digit 1 40 none 9 60 club_night
      (value-ok buyin buyin_succeeds)

approve_buyin_request-once_example : RefusesBuyIn one_digit 1 40 (value buyin buyin_succeeds).1
approve_buyin_request-once_example =
    approve_buyin_request-once one_digit 1 40 none 9 60 club_night (value-ok buyin buyin_succeeds)

-- Bala leaves with 90 chips.
abbrev buyout : Result (BuyOutResult × Db)
buyout = approve_buyout_request one_digit as_number 1 50 (some (pos 90)) 9 60 club_night

buyout_succeeds : succeeds buyout ≡ true
unfolding approve_buyout_request is_buyout find? approved_amount final_amount
buyout_succeeds = refl

approve_buyout_request-Approved_example :
    Approved one_digit as_number 1 50 (some (pos 90)) 60 club_night (value buyout buyout_succeeds)
approve_buyout_request-Approved_example =
    approve_buyout_request-Approved one_digit as_number 1 50 (some (pos 90)) 9 60 club_night
      (value-ok buyout buyout_succeeds)

approve_buyout_request-once_example :
    RefusesBuyOut one_digit as_number 1 50 (value buyout buyout_succeeds).1
approve_buyout_request-once_example =
    approve_buyout_request-once one_digit as_number 1 50 (some (pos 90)) 9 60 club_night
      (value-ok buyout buyout_succeeds)

approve_buyout_request-keeps_occupied_example : ¬ (
    assign_seat one_digit 1 20 4 9 none 70 club_night (value buyout buyout_succeeds).1
    ≡ ok (entry_of 20 7 WaitlistStatus.seated (some 4), club_night))
approve_buyout_request-keeps_occupied_example =
    approve_buyout_request-keeps_occupied one_digit as_number 1 50 (some (pos 90)) 9 60 club_night 4
      (table_of 4 1 1 TableStatus.occupied) (value-ok buyout buyout_succeeds)
      (unfold find? is_table in refl) refl 20 9 70 none club_night
      (entry_of 20 7 WaitlistStatus.seated (some 4), club_night)

abbrev rejection : Result Db
rejection = reject_buyout_request 1 50 none 9 60 club_night

rejection_succeeds : succeeds rejection ≡ true
unfolding reject_buyout_request is_buyout find?
rejection_succeeds = refl

reject_buyout_request-once_example :
    RefusesBuyOut one_digit as_number 1 50 (value rejection rejection_succeeds)
reject_buyout_request-once_example =
    reject_buyout_request-once one_digit as_number 1 50 none 9 60 club_night
      (value-ok rejection rejection_succeeds)

-- The driver hands over text, and the body has no amount.
abbrev text_buyout : Result (BuyOutResult × Db)
text_buyout = approve_buyout_request one_digit as_string 1 50 none 9 60 club_night

text_buyout_succeeds : succeeds text_buyout ≡ true
unfolding approve_buyout_request is_buyout find? approved_amount final_amount
text_buyout_succeeds = refl

approve_buyout_request-pays_nothing_example :
    (value text_buyout text_buyout_succeeds).0.amount ≡ pos 0
approve_buyout_request-pays_nothing_example =
    approve_buyout_request-pays_nothing one_digit as_string 1 50 9 60 club_night (λ a. refl)
      (value-ok text_buyout text_buyout_succeeds)

-- Table 4 is closed, and Bala is settled with 90 chips.
abbrev settlements : List (ℕ × ℤ)
settlements = (8, pos 90) ∷ []

settle_player-IsSettled_example :
    let db' =
      settle_player one_digit 1
        (some (table_of 4 1 1 TableStatus.occupied))
        60
        8
        (pos 90)
        club_night in
    IsSettled 1 8 5 (pos 90) (credit_owed 1 8 club_night) club_night.ledger db'.ledger
    × KeepsOthers 1 8 club_night.ledger db'.ledger
settle_player-IsSettled_example =
    settle_player-IsSettled one_digit 1 (some (table_of 4 1 1 TableStatus.occupied)) 60 8 (pos 90)
      club_night 5 (omega arith)

settle_all_players_on_table-clears_example :
    let db' =
      settle_all_players_on_table one_digit 1 4 settlements (some (pos 10)) none 60 club_night in
    ((t : Table) → Memᴰ t db'.tables → is_table 1 4 t ≡ true → t.current_seats ≡ 0)
    × ((player : ℕ) (amount : ℤ)
        → Memᴰ (player, amount) settlements
        → HasNoSeat 1 player db'.entries)
settle_all_players_on_table-clears_example =
    settle_all_players_on_table-clears one_digit 1 4 settlements (some (pos 10)) none 60 club_night

abbrev manual : Result (BuyOutResult × Db)
manual = settle_staff_manual_table_buyout one_digit 1 (some 8) (pos 4) (pos 90) none 60 club_night

manual_succeeds : succeeds manual ≡ true
unfolding settle_staff_manual_table_buyout seats_player_at seats_player find?
manual_succeeds = refl

settle_staff_manual_table_buyout-CashesOut_example :
    StaffCashesOut 1 (some 8) (pos 4) (pos 90) 60 club_night (value manual manual_succeeds)
settle_staff_manual_table_buyout-CashesOut_example =
    settle_staff_manual_table_buyout-CashesOut one_digit 1 (some 8) (pos 4) (pos 90) none 60
      club_night (value-ok manual manual_succeeds)

approve_buyout_request-Conserves_example :
    Conserves 5 club_night.ledger (value buyout buyout_succeeds).1.ledger
approve_buyout_request-Conserves_example =
    approve_buyout_request-Conserves one_digit as_number 1 50 (some (pos 90)) 9 60 club_night 5
      (omega arith) (value-ok buyout buyout_succeeds)

settle_all_players_on_table-Conserves_example :
    Conserves 5 club_night.ledger
      (settle_all_players_on_table one_digit 1 4 settlements
        (some (pos 10))
        none
        60
        club_night).ledger
settle_all_players_on_table-Conserves_example =
    settle_all_players_on_table-Conserves one_digit 1 4 settlements (some (pos 10)) none 60
      club_night 5 (omega arith)

settle_staff_manual_table_buyout-Conserves_example :
    Conserves 5 club_night.ledger (value manual manual_succeeds).1.ledger
settle_staff_manual_table_buyout-Conserves_example =
    settle_staff_manual_table_buyout-Conserves one_digit 1 (some 8) (pos 4) (pos 90) none 60
      club_night 5 (omega arith) (value-ok manual manual_succeeds)
