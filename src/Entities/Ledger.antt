-- ===== src/Entities/Ledger.antt =====
-- entities/financial-transaction.entity.ts: the rows of the ledger. Club, player and user ids are
-- only compared, so they are numbers; an instant is a number of milliseconds.
-- An amount is kept in ten-thousandths of a rupee: its column has two decimals, and rounds what has
-- more, which is not modelled.
use Prim.Native.Nat.{ℕ}
use mathlib.Core.Bool.{Bool, true, false}
use mathlib.Core.Option.{Option, none, some}
use poker_crm_backend.Base.Int.{ℤ}
use poker_crm_backend.Base.Text.{Text}

pub data TransactionType : Type 0 where
  deposit cashout withdrawal bonus credit refund tournament_win rake tip buy_in : TransactionType
  register club_buy_in club_buy_out table_buy_in table_buy_out debit : TransactionType

pub data TransactionStatus : Type 0 where
  pending completed cancelled failed : TransactionStatus

pub data GameType : Type 0 where
  poker rummy : GameType

pub record Transaction : Type 0 where
  pub id : ℕ
  pub txn_type : TransactionType
  pub player_id : ℕ
  pub player_name : Text
  pub amount : ℤ
  pub status : TransactionStatus
  pub notes : Option Text
  pub game_type : Option GameType
  pub club_id : ℕ
  pub created_at : ℕ
  pub updated_at : ℕ
  pub original_amount : Option ℤ
  pub override_reason : Option Text
  pub overridden_by : Option ℕ
  pub overridden_at : Option ℕ
  pub is_overridden : Bool

-- `UPPER(status) = 'COMPLETED'`
abbrev pub is_completed : TransactionStatus → Bool
is_completed TransactionStatus.completed = true
is_completed _ = false

-- A row that nobody has overridden, as `repo.create` fills it in. The key comes last: the insertion
-- chooses it.
abbrev pub new_row :
    ℕ
    → ℕ
    → Text
    → ℤ
    → TransactionType
    → Option GameType
    → Option Text
    → TransactionStatus
    → ℕ
    → ℕ
    → Transaction
new_row club player name amount type game notes status now id = record {
  id = id;
  txn_type = type;
  player_id = player;
  player_name = name;
  amount = amount;
  status = status;
  notes = notes;
  game_type = game;
  club_id = club;
  created_at = now;
  updated_at = now;
  original_amount = none;
  override_reason = none;
  overridden_by = none;
  overridden_at = none;
  is_overridden = false;
}

-- A completed row, as the services insert it.
abbrev pub completed_row :
    ℕ → ℕ → Text → ℤ → TransactionType → GameType → Text → ℕ → ℕ → Transaction
completed_row club player name amount type game notes now id =
    new_row club player name amount type (some game) (some notes) completed now id
