-- ===== src/Examples/Credits.antt =====
-- Credit requests and credit lines at concrete inputs.
use poker_crm_backend.Base.{◌≡◌, refl, true, none, some}
use poker_crm_backend.Base.Int.{pos, negsuc, ◌+ℤ◌, leb_ℤ, max_ℤ}
use poker_crm_backend.Base.Result.{Result, err, conflict}
use poker_crm_backend.Entities.{Db, CreditRequest}
use poker_crm_backend.Credit.{
  FacilityParams, compute_credit_facility_breakdown, player_meets_table_min_buy_in,
}
use poker_crm_backend.Credit.Facility.{
  Partitions, facility_limit, breakdown-Partitions, player_meets_table_min_buy_in_lem,
}
use poker_crm_backend.Cashier.CreditRequests.{deny_credit_request}
use poker_crm_backend.Cashier.CreditRequests.Approval.{approve_credit_request}
use poker_crm_backend.Cashier.CreditRequests.Draws.{Granted, approve_credit_request-Granted}
use poker_crm_backend.Cashier.CreditRequests.Decided.{
  approve_credit_request-once, deny_credit_request-once,
}
use poker_crm_backend.Examples.{succeeds, value, value-ok, one_digit, club_night}
use poker_crm_backend.Cashier.CreditRequests.{find_credit_request, is_credit_request}
use poker_crm_backend.Base.Rows.{find?}
use poker_crm_backend.Floor.Seating.Assign.{is_player}
use poker_crm_backend.Cashier.CreditRequests.Approval.{approved_limit}
use poker_crm_backend.Ledger.NetWorth.{Conserves}
use poker_crm_backend.Cashier.Conservation.{approve_credit_request-Conserves}
use poker_crm_backend.Base.{arith}

-- Bala, who is seated, gets 300 of credit.
abbrev approval : Result (CreditRequest × Db)
approval = approve_credit_request one_digit 1 30 (some (pos 250)) none 60 club_night

approval_succeeds : succeeds approval ≡ true
unfolding approve_credit_request find_credit_request is_credit_request find? is_player
    approved_limit
approval_succeeds = refl

approve_credit_request-Granted_example :
    Granted 1 30 60 club_night (value approval approval_succeeds)
approve_credit_request-Granted_example =
    approve_credit_request-Granted one_digit 1 30 (some (pos 250)) none 60 club_night
      (value-ok approval approval_succeeds)

approve_credit_request-once_example :
    (approve_credit_request one_digit 1 30 none none 70 (value approval approval_succeeds).1
      ≡ err (conflict 0))
    × (deny_credit_request 1 30 none 70 (value approval approval_succeeds).1 ≡ err (conflict 1))
approve_credit_request-once_example =
    approve_credit_request-once one_digit 1 30 (some (pos 250)) none 60 club_night
      (value-ok approval approval_succeeds) none none none 70

abbrev denial : Result (CreditRequest × Db)
denial = deny_credit_request 1 30 none 60 club_night

denial_succeeds : succeeds denial ≡ true
unfolding deny_credit_request find_credit_request is_credit_request find?
denial_succeeds = refl

deny_credit_request-once_example :
    (approve_credit_request one_digit 1 30 none none 70 (value denial denial_succeeds).1
      ≡ err (conflict 1))
    × (deny_credit_request 1 30 none 70 (value denial denial_succeeds).1 ≡ err (conflict 0))
deny_credit_request-once_example =
    deny_credit_request-once one_digit 1 30 none 60 club_night (value-ok denial denial_succeeds)
      none none none 70

-- A line of 500 with 200 drawn and a wallet of -50.
abbrev line : FacilityParams
line = record {
  credit_limit = pos 500;
  credit_used_from_approvals = pos 200;
  credit_ledger_net = pos 200;
  available_balance = negsuc 49;
  credit_enabled = true;
}

breakdown-Partitions_example :
    Partitions (facility_limit line) (compute_credit_facility_breakdown line)
breakdown-Partitions_example = breakdown-Partitions line

player_meets_table_min_buy_in_example :
    player_meets_table_min_buy_in (negsuc 49) (pos 200) (pos 150)
    ≡ leb_ℤ (pos 150) (max_ℤ (pos 0) (negsuc 49) +ℤ max_ℤ (pos 0) (pos 200))
player_meets_table_min_buy_in_example =
    player_meets_table_min_buy_in_lem (negsuc 49) (pos 200) (pos 150)

approve_credit_request-Conserves_example :
    Conserves 5 club_night.ledger (value approval approval_succeeds).1.ledger
approve_credit_request-Conserves_example =
    approve_credit_request-Conserves one_digit 1 30 (some (pos 250)) none 60 club_night 5
      (omega arith) (value-ok approval approval_succeeds)
