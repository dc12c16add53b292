-- ===== src/Examples/Clock.antt =====
-- Play times at concrete instants.
use poker_crm_backend.Base.{◌≡◌, refl, arith, false, some, none, List, [], ◌∷◌}
use poker_crm_backend.Base.Int.{ℤ, pos, ◌+ℤ◌}
use poker_crm_backend.SessionClock.{ParsedTableSessionClock, compute_player_play_seconds}
use poker_crm_backend.SessionClock.Monotone.{Grows, compute_player_play_seconds-Grows}
use poker_crm_backend.SessionClock.Pauses.{SeatedPlayer, pause_clock}
use poker_crm_backend.SessionClock.Cycles.{Cycle, run_cycles, running, run_cycles-adds_up}

-- A session that was resumed at 60 s, with 40 s carried.
abbrev resumed : ParsedTableSessionClock
resumed = record {
  session_started_at = some (pos 60000);
  paused_carry_seconds = pos 40;
  staff_paused = false;
  paused_at = none;
  segment_start = none;
  player_baseline_seconds = λ _. none;
}

compute_player_play_seconds-Grows_example :
    Grows
      (compute_player_play_seconds (pos 10000) resumed (pos 70000) (some 7))
      (compute_player_play_seconds (pos 10000) resumed (pos 95500) (some 7))
compute_player_play_seconds-Grows_example =
    compute_player_play_seconds-Grows (pos 10000) resumed (pos 70000) (pos 95500) (some 7)
      (omega arith)

-- Player 7 sits down at 10 s and is at the table at the pauses of 90 s and 150 s.
abbrev seated_at_table : List SeatedPlayer
seated_at_table = record { player_id = some 7; seated_at = some (pos 10000) } ∷ []

abbrev first_cycle : Cycle
first_cycle = record { paused = pos 90000; seated = seated_at_table; resumed = pos 120000 }

abbrev second_cycle : Cycle
second_cycle = record { paused = pos 150500; seated = seated_at_table; resumed = pos 300000 }

run_cycles-adds_up_example :
    ((t : ℤ)
      → compute_player_play_seconds
          (pos 10000)
          (pause_clock seated_at_table (pos 90000) resumed)
          t
          (some 7)
        ≡ compute_player_play_seconds (pos 10000) resumed (pos 90000) (some 7))
    × (compute_player_play_seconds
          (pos 10000)
          (run_cycles (first_cycle ∷ second_cycle ∷ []) resumed)
          (pos 310000)
          (some 7)
        ≡ compute_player_play_seconds (pos 10000) resumed (pos 90000) (some 7)
          +ℤ running (pos 120000) (second_cycle ∷ []) (pos 310000))
run_cycles-adds_up_example =
    run_cycles-adds_up 7 (pos 10000) (pos 60000) (pos 310000) resumed first_cycle
      (second_cycle ∷ []) refl (omega arith)
      (refl, omega arith, omega arith, (refl, omega arith, omega arith, omega arith))
