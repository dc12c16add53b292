-- ===== src/SessionClock/Pauses.antt =====
-- How pauseTableSession and resumeTableSession of src/clubs/clubs.controller.ts change the clock of
-- a table. They write the notes of the table; the clock is what parseTableSessionNotes of
-- src/utils/table-session-clock.ts then reads from them. Instants are written in whole
-- milliseconds, and so read back as they were. The other text of the notes, and a start that is not
-- a date, are not modelled.
use poker_crm_backend.Base.{
  ℕ, true, false, Option, none, some, List, [], ◌∷◌, ◌==◌, if◌then◌else◌, or_else,
}
use poker_crm_backend.Base.Int.{ℤ, pos, ◌+ℤ◌, ◌-ℤ◌, max_ℤ, floor_thousandth}
use poker_crm_backend.SessionClock.{ParsedTableSessionClock, compute_player_play_seconds}

-- What getSeatedPlayersForTable says of a seat.
pub record SeatedPlayer : Type 0 where
  pub player_id : Option ℕ
  pub seated_at : Option ℤ

-- The entry `id=seconds` of a seat, if it is of that player.
unfoldable pub snapshot_of : ParsedTableSessionClock → ℤ → SeatedPlayer → ℕ → Option ℤ
snapshot_of clock now p id = elim p.player_id [
  | none ↦ none
  | some key ↦
      if key == id
      then some (compute_player_play_seconds (or_else p.seated_at (pos 0)) clock now (some key))
      else none
]

-- PausedPlayers: a later entry of a player takes the place of an earlier one.
unfoldable pub snapshots : ParsedTableSessionClock → ℤ → List SeatedPlayer → ℕ → Option ℤ
snapshots clock now [] id = none
snapshots clock now (p ∷ ps) id = elim (snapshots clock now ps id) [
  | some seconds ↦ some seconds
  | none ↦ snapshot_of clock now p id
]

-- The clock of a session that was running since the start.
unfoldable pub stopped_clock :
    List SeatedPlayer → ℤ → ℤ → ParsedTableSessionClock → ParsedTableSessionClock
stopped_clock seated now start clock = record {
  session_started_at = none;
  paused_carry_seconds =
      clock.paused_carry_seconds +ℤ max_ℤ (pos 0) (floor_thousandth (now -ℤ start));
  staff_paused = true;
  paused_at = some now;
  segment_start = some start;
  player_baseline_seconds = snapshots clock now seated;
}

-- The pause: a table without a running session keeps its notes.
unfoldable pub pause_clock :
    List SeatedPlayer → ℤ → ParsedTableSessionClock → ParsedTableSessionClock
pause_clock seated now clock = elim clock.session_started_at [
  | none ↦ clock
  | some start ↦ stopped_clock seated now start clock
]

-- The start or the resumption: the snapshots of a pause become the carry of the players, and the
-- carry of an earlier resumption is dropped.
unfoldable pub resume_clock : ℤ → ParsedTableSessionClock → ParsedTableSessionClock
resume_clock now clock = record {
  session_started_at = some now;
  paused_carry_seconds = clock.paused_carry_seconds;
  staff_paused = false;
  paused_at = none;
  segment_start = none;
  player_baseline_seconds =
      if clock.staff_paused then clock.player_baseline_seconds else (λ _. none);
}
