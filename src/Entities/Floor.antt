-- ===== src/Entities/Floor.antt =====
-- entities/table.entity.ts, entities/waitlist-entry.entity.ts and the columns of
-- entities/player.entity.ts that the floor and the cashier use.
use Prim.Native.Nat.{ℕ}
use mathlib.Core.Bool.{Bool, true, false}
use mathlib.Core.Option.{Option}
use poker_crm_backend.Base.Int.{ℤ}
use poker_crm_backend.Base.Text.{Text}
use poker_crm_backend.Entities.Ledger.{GameType, poker, rummy}

pub data TableStatus : Type 0 where
  available occupied reserved maintenance closed : TableStatus

pub data TableType : Type 0 where
  cash tournament high_stakes private rummy_table : TableType

-- The columns of a table that only rummy uses.
pub record RummyRules : Type 0 where
  pub rummy_variant : Option Text
  pub points_value : Option ℤ
  pub number_of_deals : Option ℤ
  pub drop_points : Option ℤ
  pub max_points : Option ℤ
  pub deal_duration : Option ℤ
  pub entry_fee : Option ℤ
  pub min_players : Option ℤ

pub record Table : Type 0 where
  pub id : ℕ
  pub club_id : ℕ
  pub table_number : ℕ
  pub table_type : TableType
  pub max_seats : ℕ
  pub current_seats : ℕ
  pub status : TableStatus
  pub min_buy_in : Option ℤ
  pub max_buy_in : Option ℤ
  pub notes : Option Text
  pub reserved_for : Option Text
  pub reserved_until : Option ℕ
  pub rules : RummyRules

pub data WaitlistStatus : Type 0 where
  pending seated cancelled no_show : WaitlistStatus

pub record WaitlistEntry : Type 0 where
  pub id : ℕ
  pub club_id : ℕ
  pub player_name : Text
  pub player_id : Option ℕ
  pub phone_number : Option Text
  pub email : Option Text
  pub party_size : ℕ
  pub status : WaitlistStatus
  pub table_number : Option ℕ
  pub table_type : Option Text
  pub requested_game_type : Option GameType
  pub requested_seat : Option ℕ
  pub assigned_seat : Option ℕ
  pub priority : ℕ
  pub notes : Option Text
  pub seated_at : Option ℕ
  pub cancelled_at : Option ℕ
  pub seated_by : Option ℕ
  pub created_at : ℕ

pub record Player : Type 0 where
  pub id : ℕ
  pub club_id : ℕ
  pub name : Text
  pub credit_enabled : Bool
  pub credit_limit : ℤ
  pub credit_enabled_at : Option ℕ

abbrev pub is_seated : WaitlistStatus → Bool
is_seated WaitlistStatus.seated = true
is_seated _ = false

abbrev pub is_pending : WaitlistStatus → Bool
is_pending WaitlistStatus.pending = true
is_pending _ = false

abbrev pub is_cancelled : WaitlistStatus → Bool
is_cancelled WaitlistStatus.cancelled = true
is_cancelled _ = false

abbrev pub is_available : TableStatus → Bool
is_available TableStatus.available = true
is_available _ = false

abbrev pub is_reserved : TableStatus → Bool
is_reserved TableStatus.reserved = true
is_reserved _ = false

abbrev pub is_occupied : TableStatus → Bool
is_occupied TableStatus.occupied = true
is_occupied _ = false

abbrev pub is_rummy : TableType → Bool
is_rummy TableType.rummy_table = true
is_rummy _ = false

-- `table_type === 'RUMMY' ? 'rummy' : 'poker'`
abbrev pub game_of : TableType → GameType
game_of TableType.rummy_table = rummy
game_of _ = poker
