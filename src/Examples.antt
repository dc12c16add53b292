-- ===== src/Examples.antt =====
-- A small club: one player with a credit line, two tables, and one request of each kind.
mod Floor
mod Cashier
mod Credits
mod Clock
mod Entered
mod Tournament
mod Play
mod Leave
use poker_crm_backend.Base.{ℕ, ◌≡◌, refl, Bool, true, false, Option, none, some, List, [], ◌∷◌}
use poker_crm_backend.Base.Int.{ℤ, pos}
use poker_crm_backend.Base.Text.{Text, codes}
use poker_crm_backend.Base.Result.{Result, ok, err}
use poker_crm_backend.Entities.{
  Db, Table, TableStatus, TableType, RummyRules, WaitlistEntry, WaitlistStatus, Player, Transaction,
  TransactionType, GameType, CreditRequest, CreditRequestStatus, BuyInRequest, BuyOutRequest,
  RequestStatus, completed_row,
}
use poker_crm_backend.Floor.Format.{NumberFormat, all_number_chars, is_number_char}
use poker_crm_backend.Cashier.Settlement.{JsAmount, as_number, as_string}

abbrev pub succeeds {ℓ} : {A : Type ℓ} → Result A → Bool
succeeds (ok a) = true
succeeds (err e) = false

-- The value of a result that is known to succeed.
abbrev pub value {ℓ} : {A : Type ℓ} (m : Result A) → succeeds m ≡ true → A
value (ok a) h = a
value (err e) h = absurd (cc)

pub value-ok {ℓ} : {A : Type ℓ} (m : Result A) (h : succeeds m ≡ true) → m ≡ ok (value m h)
value-ok (ok a) h = refl
value-ok (err e) h = cc

pub one_is_plain : all_number_chars (codes "1") ≡ true
unfolding all_number_chars is_number_char
one_is_plain = refl

-- Every number is printed as one digit.
abbrev pub one_digit : NumberFormat
one_digit = record {
  amount_text = λ _. codes "1";
  fixed_text = λ _. codes "1";
  int_text = λ _. codes "1";
  amount_text_plain = λ _. one_is_plain;
  fixed_text_plain = λ _. one_is_plain;
  int_text_plain = λ _. one_is_plain;
}

abbrev pub no_rules : RummyRules
no_rules = record {
  rummy_variant = none;
  points_value = none;
  number_of_deals = none;
  drop_points = none;
  max_points = none;
  deal_duration = none;
  entry_fee = none;
  min_players = none;
}

abbrev pub table_of : ℕ → ℕ → ℕ → TableStatus → Table
table_of id seats current status = record {
  id = id;
  club_id = 1;
  table_number = id;
  table_type = TableType.cash;
  max_seats = seats;
  current_seats = current;
  status = status;
  min_buy_in = some (pos 100);
  max_buy_in = none;
  notes = some (codes "Session started: 10");
  reserved_for = none;
  reserved_until = none;
  rules = no_rules;
}

abbrev pub entry_of : ℕ → ℕ → WaitlistStatus → Option ℕ → WaitlistEntry
entry_of id player status number = record {
  id = id;
  club_id = 1;
  player_name = codes "Asha";
  player_id = some player;
  phone_number = none;
  email = none;
  party_size = 1;
  status = status;
  table_number = number;
  table_type = none;
  requested_game_type = none;
  requested_seat = some 2;
  assigned_seat = number;
  priority = 0;
  notes = none;
  seated_at = none;
  cancelled_at = none;
  seated_by = none;
  created_at = 5;
}

abbrev pub asha : Player
asha = record {
  id = 7;
  club_id = 1;
  name = codes "Asha";
  credit_enabled = true;
  credit_limit = pos 500;
  credit_enabled_at = none;
}

abbrev pub credit_request : CreditRequest
credit_request = record {
  id = 30;
  player_id = 8;
  player_name = codes "Bala";
  amount = pos 300;
  status = CreditRequestStatus.pending;
  visible_to_player = true;
  limit = pos 300;
  notes = none;
  rejection_reason = none;
  club_id = 1;
  updated_at = 6;
}

abbrev pub buyin_request : BuyInRequest
buyin_request = record {
  id = 40;
  club_id = 1;
  player_id = 8;
  table_id = some 4;
  table_number = some 4;
  seat_number = some 4;
  requested_amount = pos 200;
  current_table_balance = none;
  status = RequestStatus.pending;
  requested_at = 6;
  processed_by = none;
  processed_at = none;
  rejection_reason = none;
}

abbrev pub buyout_request : BuyOutRequest
buyout_request = record {
  id = 50;
  club_id = 1;
  player_id = some 8;
  table_id = some 4;
  table_number = some 4;
  seat_number = some 4;
  requested_amount = some (pos 250);
  current_table_balance = none;
  status = RequestStatus.pending;
  call_time_started_at = none;
  requested_at = 6;
  processed_by = none;
  processed_at = none;
  rejection_reason = none;
}

-- Asha waits with a wallet of 1000; Bala sits at table 4, which is full.
abbrev pub club_night : Db
club_night = record {
  clubs = 1 ∷ [];
  players = asha ∷ (record asha { id = 8; name = codes "Bala" } ∷ []);
  tables = table_of 3 6 0 TableStatus.available ∷ (table_of 4 1 1 TableStatus.occupied ∷ []);
  entries =
      entry_of 20 7 WaitlistStatus.pending none
      ∷ (entry_of 21 8 WaitlistStatus.seated (some 4) ∷ []);
  ledger =
      completed_row 1 8 (codes "Bala") (pos 400) TransactionType.credit GameType.poker (codes "x") 5
        11
      ∷ (completed_row 1 7 (codes "Asha") (pos 1000) TransactionType.deposit GameType.poker
            (codes "x") 5 10
          ∷ []);
  credit_requests = credit_request ∷ [];
  buyin_requests = buyin_request ∷ [];
  buyout_requests = buyout_request ∷ [];
  rakes = [];
  next_id = 100;
}
