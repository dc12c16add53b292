-- ===== src/Tournaments.antt =====
-- src/clubs/services/tournaments.service.ts: the rows of a tournament and its players. The columns
-- `status` and `structure` are text and JSON in the database; a field of the structure that is
-- missing, or is no number, is 0 here, as `Number(…) ||` reads it.
pub mod Blinds
pub mod Clock
pub mod Advance
pub mod Timer
pub mod Play
pub mod Pause
pub mod Ended
pub mod Exit
pub mod Exited
pub mod Cancelled
pub mod Refunded
pub mod Left
pub mod Over
pub mod State
use poker_crm_backend.Base.{ℕ, Bool, true, false, Option, none, List, ◌==◌, if◌then◌else◌}
use poker_crm_backend.Base.Int.{ℤ}
use poker_crm_backend.Base.Text.{Text}

-- A status that is neither active nor completed, such as `scheduled`, may be started.
pub data TournamentStatus : Type 0 where
  waiting active completed : TournamentStatus

-- The JSON of the blinds. Levels and breaks last whole minutes. What a tournament allows is said here
-- or in a column of the row, whichever is set.
pub record BlindStructure : Type 0 where
  pub minutes_per_level : ℕ
  pub number_of_levels : ℕ
  pub break_duration : ℕ
  pub break_structure : Text
  pub starting_sb : Option ℕ
  pub starting_bb : Option ℕ
  pub current_round : Option ℕ
  pub current_sb : Option ℕ
  pub current_bb : Option ℕ
  pub allow_rebuys : Bool
  pub allow_reentry : Bool
  pub allow_addon : Bool
  pub late_registration : ℕ

-- An instant is a number of milliseconds.
pub record Tournament : Type 0 where
  pub id : ℕ
  pub club_id : ℕ
  pub name : Text
  pub status : TournamentStatus
  pub structure : BlindStructure
  pub buy_in : ℤ
  pub is_rummy : Bool
  pub current_players : ℕ
  pub session_started_at : Option ℕ
  pub paused_at : Option ℕ
  pub total_paused_seconds : ℕ
  pub updated_at : ℕ

unfoldable pub is_active : TournamentStatus → Bool
is_active TournamentStatus.active = true
is_active _ = false

unfoldable pub is_finished : TournamentStatus → Bool
is_finished TournamentStatus.completed = true
is_finished _ = false

-- `Number(n) || d`
unfoldable pub or_number : ℕ → ℕ → ℕ
or_number n d = if n == 0 then d else n
