-- ===== src/Entities/Requests.antt =====
-- entities/credit-request.entity.ts, entities/buyin-request.entity.ts,
-- entities/buyout-request.entity.ts and the rows of rake_collections.
use Prim.Native.Nat.{ℕ}
use mathlib.Core.Bool.{Bool, true, false}
use mathlib.Core.Option.{Option}
use poker_crm_backend.Base.Int.{ℤ}
use poker_crm_backend.Base.Text.{Text}

pub data CreditRequestStatus : Type 0 where
  pending approved denied : CreditRequestStatus

pub record CreditRequest : Type 0 where
  pub id : ℕ
  pub player_id : ℕ
  pub player_name : Text
  pub amount : ℤ
  pub status : CreditRequestStatus
  pub visible_to_player : Bool
  pub limit : ℤ
  pub notes : Option Text
  pub rejection_reason : Option Text
  pub club_id : ℕ
  pub updated_at : ℕ

-- The status of a buy-in request and of a buy-out request.
pub data RequestStatus : Type 0 where
  pending approved rejected : RequestStatus

pub record BuyInRequest : Type 0 where
  pub id : ℕ
  pub club_id : ℕ
  pub player_id : ℕ
  pub table_id : Option ℕ
  pub table_number : Option ℕ
  pub seat_number : Option ℕ
  pub requested_amount : ℤ
  pub current_table_balance : Option ℤ
  pub status : RequestStatus
  pub requested_at : ℕ
  pub processed_by : Option ℕ
  pub processed_at : Option ℕ
  pub rejection_reason : Option Text

pub record BuyOutRequest : Type 0 where
  pub id : ℕ
  pub club_id : ℕ
  pub player_id : Option ℕ
  pub table_id : Option ℕ
  pub table_number : Option ℕ
  pub seat_number : Option ℕ
  pub requested_amount : Option ℤ
  pub current_table_balance : Option ℤ
  pub status : RequestStatus
  pub call_time_started_at : Option ℕ
  pub requested_at : ℕ
  pub processed_by : Option ℕ
  pub processed_at : Option ℕ
  pub rejection_reason : Option Text

-- A row of rake_collections, as a settlement writes it.
pub record RakeCollection : Type 0 where
  pub id : ℕ
  pub club_id : ℕ
  pub table_id : ℕ
  pub table_number : ℕ
  pub total_rake_amount : ℤ
  pub collected_by : Option ℕ
  pub collected_at : ℕ

abbrev pub is_pending_request : RequestStatus → Bool
is_pending_request RequestStatus.pending = true
is_pending_request _ = false

abbrev pub is_pending_credit : CreditRequestStatus → Bool
is_pending_credit CreditRequestStatus.pending = true
is_pending_credit _ = false

abbrev pub is_approved_credit : CreditRequestStatus → Bool
is_approved_credit CreditRequestStatus.approved = true
is_approved_credit _ = false

abbrev pub is_denied_credit : CreditRequestStatus → Bool
is_denied_credit CreditRequestStatus.denied = true
is_denied_credit _ = false
