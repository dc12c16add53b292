-- ===== src/Examples/Tournament.antt =====
-- A tournament of the club of Examples: levels of 15 minutes, a break after every second one.
use poker_crm_backend.Base.{◌≡◌, ◌≤◌, ◌<◌, refl, true, false, none, some, [], ◌∷◌, arith}
use poker_crm_backend.Base.Int.{pos, ◌+ℤ◌, ◌-ℤ◌, ◌≤ℤ◌, ◌<ℤ◌, leb_ℤ}
use poker_crm_backend.Base.Text.{codes}
use poker_crm_backend.Base.Result.{Result, ok}
use poker_crm_backend.Base.Rows.{find?}
use poker_crm_backend.Tournaments.{
  Tournament, TournamentStatus, BlindStructure, is_active, or_number,
}
use poker_crm_backend.Tournaments.Blinds.{
  is_digit, read_digits, first_number, level_minutes, levels, break_minutes, breaks_after,
  minutes_after, round_from, effective_elapsed, calc_expected_round, round_of, ms_until_next_level,
  check_and_advance, with_blinds,
}
use poker_crm_backend.Tournaments.State.{
  TournamentDb, new_entrant, get_tournament, is_tournament, pause_tournament, resume_tournament,
  set_tournament,
}
use poker_crm_backend.Tournaments.Timer.{
  ms_until_next_level-calc_expected_round, calc_expected_round-Grows,
}
use poker_crm_backend.Tournaments.Advance.{
  check_and_advance-caught_up, check_and_advance-once, is_stale, caught_up,
}
use poker_crm_backend.Tournaments.Pause.{resume_tournament-effective_elapsed}
use poker_crm_backend.Base.{ltb}
use poker_crm_backend.Base.Rows.{update_where}
use poker_crm_backend.Examples.{club_night, succeeds, value, value-ok}

abbrev pub structure : BlindStructure
structure = record {
  minutes_per_level = 15;
  number_of_levels = 6;
  break_duration = 10;
  break_structure = codes "Every 2 levels";
  starting_sb = some 25;
  starting_bb = some 50;
  current_round = some 2;
  current_sb = some 50;
  current_bb = some 100;
  allow_rebuys = true;
  allow_reentry = false;
  allow_addon = false;
  late_registration = 0;
}

abbrev pub friday : Tournament
friday = record {
  id = 60;
  club_id = 1;
  name = codes "Friday";
  status = TournamentStatus.active;
  structure = structure;
  buy_in = pos 200;
  is_rummy = false;
  current_players = 2;
  session_started_at = some 1000;
  paused_at = none;
  total_paused_seconds = 60;
  updated_at = 1000;
}

abbrev pub friday_db : TournamentDb
friday_db = record {
  tournaments = friday ∷ [];
  tournament_players =
      new_entrant 60 7 (some 1000) (pos 200) ∷ (new_entrant 60 8 (some 1000) (pos 200) ∷ []);
  registrations = record { club_id = 1; tournament_id = 60; player_id = 7 } ∷ [];
  floor = club_night;
}

-- The break after the second level is not over, and then it is.
early_round : calc_expected_round friday 1000 2_400_000 ≡ 2
unfolding calc_expected_round effective_elapsed round_from levels level_minutes break_minutes
    breaks_after minutes_after or_number first_number read_digits is_digit ◌-ℤ◌
early_round = refl

late_round : calc_expected_round friday 1000 3_000_000 ≡ 3
unfolding calc_expected_round effective_elapsed round_from levels level_minutes break_minutes
    breaks_after minutes_after or_number first_number read_digits is_digit ◌-ℤ◌
late_round = refl

from_first : 1 ≤ round_of friday.structure
unfolding round_of or_number
from_first = omega arith

below_last : round_of friday.structure < levels friday.structure
unfolding round_of levels or_number
below_last = omega arith

ms_until_next_level-calc_expected_round_example :
    leb_ℤ (ms_until_next_level friday 1000 3_000_000) (pos 0)
    ≡ ltb (round_of friday.structure) (calc_expected_round friday 1000 3_000_000)
ms_until_next_level-calc_expected_round_example =
    ms_until_next_level-calc_expected_round friday 1000 3_000_000 from_first below_last

calc_expected_round-Grows_example :
    (1 ≤ calc_expected_round friday 1000 2_400_000)
    × (calc_expected_round friday 1000 2_400_000 ≤ calc_expected_round friday 1000 3_000_000)
    × (calc_expected_round friday 1000 3_000_000 ≤ levels friday.structure)
calc_expected_round-Grows_example =
    calc_expected_round-Grows friday 1000 2_400_000 3_000_000 (omega arith)

behind : round_of friday.structure < calc_expected_round friday 1000 3_000_000
unfolding round_of or_number
behind = rw late_round (omega arith)

check_and_advance-caught_up_example :
    (check_and_advance friday 1000 3_000_000 (friday ∷ [])
      ≡ update_where
          (is_stale friday)
          (λ (o : Tournament). record o {
            structure = with_blinds friday.structure (caught_up friday 1000 3_000_000);
            updated_at = 3_000_000;
          })
          (friday ∷ []))
    × (calc_expected_round friday 1000 3_000_000 ≤ levels friday.structure)
check_and_advance-caught_up_example =
    check_and_advance-caught_up friday 1000 3_000_000 (friday ∷ []) below_last behind

check_and_advance-once_example :
    check_and_advance friday 1000 3_000_005 (check_and_advance friday 1000 3_000_000 (friday ∷ []))
    ≡ check_and_advance friday 1000 3_000_000 (friday ∷ [])
check_and_advance-once_example =
    check_and_advance-once friday 1000 3_000_000 3_000_005 (friday ∷ []) below_last behind

abbrev pause_attempt : Result TournamentDb
pause_attempt = pause_tournament 1 60 100_000 friday_db

pause_works : succeeds pause_attempt ≡ true
unfolding pause_tournament get_tournament is_tournament find? is_active
pause_works = refl

abbrev resumption : Result TournamentDb
resumption = resume_tournament 1 60 175_500 (value pause_attempt pause_works)

resumption_succeeds : succeeds resumption ≡ true
unfolding pause_tournament resume_tournament get_tournament is_tournament find? is_active
    set_tournament update_where
resumption_succeeds = refl

resume_tournament-effective_elapsed_example :
    (t : Tournament) × (t'' : Tournament) × (get_tournament 1 60 friday_db ≡ ok t)
    × (get_tournament 1 60 (value resumption resumption_succeeds) ≡ ok t'')
    × (effective_elapsed t 1000 100_000 ≤ℤ effective_elapsed t'' 1000 175_500)
    × (effective_elapsed t'' 1000 175_500 <ℤ effective_elapsed t 1000 100_000 +ℤ pos 1000)
resume_tournament-effective_elapsed_example =
    resume_tournament-effective_elapsed 1 60 1000 100_000 175_500 friday_db
      (value pause_attempt pause_works) (value resumption resumption_succeeds) (omega arith)
      (value-ok pause_attempt pause_works) (value-ok resumption resumption_succeeds)
