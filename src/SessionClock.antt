-- ===== src/SessionClock.antt =====
-- computePlayerPlaySeconds of src/utils/table-session-clock.ts, over the clock that the notes of a
-- table were parsed into. An instant is an integer of milliseconds.
pub mod Monotone
pub mod Pauses
pub mod Snapshots
pub mod Cycles
use poker_crm_backend.Base.{ℕ, Bool, true, false, Option, none, some, if◌then◌else◌}
use poker_crm_backend.Base.Int.{ℤ, pos, ◌+ℤ◌, ◌-ℤ◌, leb_ℤ, max_ℤ, floor_thousandth}

-- The clock: the ids of players are in lower case where they are looked up.
pub record ParsedTableSessionClock : Type 0 where
  pub session_started_at : Option ℤ
  pub paused_carry_seconds : ℤ
  pub staff_paused : Bool
  pub paused_at : Option ℤ
  pub segment_start : Option ℤ
  pub player_baseline_seconds : ℕ → Option ℤ

-- `pid && clock.playerBaselineSeconds[pid]`
unfoldable pub baseline_of : Option ℕ → ParsedTableSessionClock → Option ℤ
baseline_of none clock = none
baseline_of (some id) clock = clock.player_baseline_seconds id

-- The snapshot of a player, if the player sat down no later than it was taken.
unfoldable pub snapshot_since : Option ℤ → Option ℤ → ℤ → Option ℤ
snapshot_since (some base) (some taken) seat = if leb_ℤ seat taken then some base else none
snapshot_since _ _ seat = none

-- The seconds of the segment that ended with the pause, or what the pause carries.
unfoldable pub segment_seconds : Option ℤ → Option ℤ → ℤ → ℤ → ℤ
segment_seconds (some paused) (some start) carry seat =
    max_ℤ (pos 0) (floor_thousandth (paused -ℤ max_ℤ seat start))
segment_seconds _ _ carry seat = max_ℤ (pos 0) carry

unfoldable pub paused_seconds : ℤ → ParsedTableSessionClock → Option ℕ → ℤ
paused_seconds seat clock player =
    elim (snapshot_since (baseline_of player clock) clock.paused_at seat) [
      | some base ↦ max_ℤ (pos 0) base
      | none ↦ segment_seconds clock.paused_at clock.segment_start clock.paused_carry_seconds seat
    ]

unfoldable pub running_seconds : ℤ → ParsedTableSessionClock → ℤ → ℤ → Option ℕ → ℤ
running_seconds seat clock start now player =
    elim (snapshot_since (baseline_of player clock) (some start) seat) [
      | some base ↦ max_ℤ (pos 0) (base +ℤ floor_thousandth (now -ℤ start))
      | none ↦
          let running = floor_thousandth (now -ℤ max_ℤ seat start) in
          if leb_ℤ start seat
          then max_ℤ (pos 0) running
          else max_ℤ (pos 0) (running +ℤ clock.paused_carry_seconds)
    ]

-- computePlayerPlaySeconds
unfoldable pub compute_player_play_seconds : ℤ → ParsedTableSessionClock → ℤ → Option ℕ → ℤ
compute_player_play_seconds seat clock now player =
    if clock.staff_paused then paused_seconds seat clock player else elim clock.session_started_at [
      | some start ↦ running_seconds seat clock start now player
      | none ↦ max_ℤ (pos 0) (floor_thousandth (now -ℤ seat))
    ]
