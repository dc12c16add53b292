-- ===== src/Examples/Floor.antt =====
-- Seatings and histories at concrete inputs.
use poker_crm_backend.Base.{◌≡◌, refl, arith, true, none, some, List, [], ◌∷◌, Memᴰ}
use poker_crm_backend.Base.Int.{pos}
use poker_crm_backend.Floor.Seating.Assign.{assign_seat}
use poker_crm_backend.Floor.Seating.Opened.{Seats, assign_seat-Seats}
use poker_crm_backend.Floor.Seating.Places.{ArePlacesDistinct}
use poker_crm_backend.Floor.Sound.{IsSoundDb}
use poker_crm_backend.History.{Request, run}
use poker_crm_backend.History.Soundness.{run-IsSound}
use poker_crm_backend.Cashier.Settlement.{as_number}
use poker_crm_backend.Examples.{succeeds, value, value-ok, one_digit, club_night}
use poker_crm_backend.Floor.Seating.Assign.{assign_seat_locked, is_player, seat_player}
use poker_crm_backend.Floor.Waitlist.{get_waitlist_entry, is_entry}
use poker_crm_backend.Floor.Tables.{get_table, is_table}
use poker_crm_backend.Floor.Seating.Checks.{
  check_request, check_open, check_locked, seat_taken, sits_at, is_other, effective_seat,
  wants_rummy, not_open, table_has_active_staff_session,
}
use poker_crm_backend.Base.Rows.{find?}
use poker_crm_backend.Base.Text.{contains, lower, trim}
use poker_crm_backend.Floor.Seating.Opening.{
  opening_chips, facility_params, least_buy_in, buy_in_cap, credit_to_apply,
}
use poker_crm_backend.Credit.{
  compute_credit_facility_breakdown, line_breakdown, player_meets_table_min_buy_in,
  sum_approved_credit_limit_since, is_since,
}
use poker_crm_backend.Base.Int.{min_ℤ, max_ℤ, ◌+ℤ◌, ◌-ℤ◌, neg}
use poker_crm_backend.Ledger.{
  credit_balance, wallet_balance, sum_rows, is_mine, wallet_delta, credit_delta, wallet_case,
  credit_case, has_marker, is_repayment,
}
use poker_crm_backend.Ledger.NetWorth.{Conserves}
use poker_crm_backend.Floor.Seating.Worth.{assign_seat-Conserves}

-- Asha takes the seat that she asked for at table 3.
asha_succeeds : succeeds (assign_seat one_digit 1 20 3 9 none 50 club_night club_night) ≡ true
unfolding assign_seat assign_seat_locked get_waitlist_entry get_table is_entry is_table is_player
    check_request check_open check_locked seat_taken sits_at is_other effective_seat wants_rummy
    not_open table_has_active_staff_session find? contains lower trim seat_player opening_chips
    facility_params least_buy_in buy_in_cap credit_to_apply compute_credit_facility_breakdown
    line_breakdown player_meets_table_min_buy_in min_ℤ max_ℤ ◌+ℤ◌ ◌-ℤ◌ neg credit_balance
    wallet_balance sum_rows is_mine wallet_delta credit_delta wallet_case credit_case has_marker
    is_repayment sum_approved_credit_limit_since is_since
asha_succeeds = refl

assign_seat-Seats_example :
    Seats 1 3 50 club_night
      (value (assign_seat one_digit 1 20 3 9 none 50 club_night club_night) asha_succeeds)
assign_seat-Seats_example =
    assign_seat-Seats one_digit 1 20 3 9 none 50 50 club_night club_night (omega arith)
      (value-ok (assign_seat one_digit 1 20 3 9 none 50 club_night club_night) asha_succeeds)

assign_seat-Conserves_example :
    Conserves 50 club_night.ledger
      (value (assign_seat one_digit 1 20 3 9 none 50 club_night club_night) asha_succeeds).1.ledger
assign_seat-Conserves_example =
    assign_seat-Conserves one_digit 1 20 3 9 none 50 club_night club_night 50 (omega arith)
      (value-ok (assign_seat one_digit 1 20 3 9 none 50 club_night club_night) asha_succeeds)

-- The club is sound.
one_seated : ArePlacesDistinct club_night.entries
one_seated c n s e f (Memᴰ.head h) mf se sf = let away = se.is_seated in cc
one_seated c n s e f (Memᴰ.tail (Memᴰ.head h)) (Memᴰ.head k) se sf = let away = sf.is_seated in cc
one_seated c n s e f (Memᴰ.tail (Memᴰ.head h)) (Memᴰ.tail (Memᴰ.head k)) se sf = cc
one_seated c n s e f (Memᴰ.tail (Memᴰ.head h)) (Memᴰ.tail (Memᴰ.tail m)) se sf = elim m [ ]
one_seated c n s e f (Memᴰ.tail (Memᴰ.tail m)) mf se sf = elim m [ ]

club_night-IsSound : IsSoundDb club_night
club_night-IsSound = record { within = (omega arith, (omega arith, tt)); places = one_seated }

-- A seating, a refused deletion and a buy-out.
abbrev evening : List Request
evening =
    Request.assign 1 20 3 9 none 50 club_night
    ∷ (Request.remove_table 1 3 ∷ (Request.approve_buyout 1 50 (some (pos 90)) 9 60 ∷ []))

run-IsSound_example : IsSoundDb (run one_digit as_number evening club_night)
run-IsSound_example = run-IsSound one_digit as_number evening club_night club_night-IsSound
