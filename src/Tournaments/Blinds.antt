-- ===== src/Tournaments/Blinds.antt =====
-- The blind clock of src/clubs/services/tournaments.service.ts: which round a tournament should be
-- in, when the timer fires, and how the poller catches up.
use Prim.Native.Nat.{zero, suc}
use poker_crm_backend.Base.{
  ℕ, ◌+◌, ◌-◌, ◌*◌, ◌%◌, Bool, false, Option, none, some, List, [], ◌∷◌, ◌&&◌, ◌||◌, ◌==◌, ltb, leb,
  if◌then◌else◌, is_some, not,
}
use poker_crm_backend.Base.Int.{ℤ, pos, pos_part, ◌-ℤ◌, leb_ℤ}
use poker_crm_backend.Base.Text.{Text}
use poker_crm_backend.Base.Rows.{update_where}
use poker_crm_backend.Tournaments.{Tournament, BlindStructure, or_number, is_active}

-- `parseInt(s.match(/(\d+)/)[1], 10)`: the first run of digits, and 0 where there is none.
unfoldable pub is_digit : ℕ → Bool
is_digit c = leb b'0' c && leb c b'9'

unfoldable pub read_digits : ℕ → Text → ℕ
unfolding is_digit
read_digits n [] = n
read_digits n (c ∷ s) = if is_digit c then read_digits (10 * n + (c - b'0')) s else n

unfoldable pub first_number : Text → ℕ
unfolding is_digit
first_number [] = 0
first_number (c ∷ s) = if is_digit c then read_digits 0 (c ∷ s) else first_number s

unfoldable pub level_minutes : BlindStructure → ℕ
level_minutes s = or_number s.minutes_per_level 15

unfoldable pub levels : BlindStructure → ℕ
levels s = or_number s.number_of_levels 15

unfoldable pub break_minutes : BlindStructure → ℕ
break_minutes s = or_number s.break_duration 10

-- A break follows a level that is a multiple of `breakEveryNLevels` and is not the last.
unfoldable pub breaks_after : BlindStructure → ℕ → Bool
breaks_after s level =
    let every = first_number s.break_structure in
    ltb 0 every && level % every == 0 && ltb level (levels s)

-- The minutes accounted for once a level, and the break after it, are over.
unfoldable pub minutes_after : BlindStructure → ℕ → ℕ → ℕ
minutes_after s level accumulated =
    if breaks_after s level
    then accumulated + level_minutes s + break_minutes s
    else accumulated + level_minutes s

-- The loop of calcExpectedRound over the levels that are left. `elapsed` is in milliseconds, and
-- the bounds are taken to milliseconds in place of dividing it by 60000.
unfoldable pub round_from : BlindStructure → ℕ → ℕ → ℕ → ℕ → ℕ
round_from s elapsed zero level accumulated = levels s
round_from s elapsed (suc left) level accumulated =
    let rest = round_from s elapsed left (suc level) (minutes_after s level accumulated) in
    if ltb elapsed ((accumulated + level_minutes s) * 60000)
    then level
    else if breaks_after s level
        && ltb elapsed ((accumulated + level_minutes s + break_minutes s) * 60000)
    then level
    else rest

-- The time since the start that the tournament was not paused.
unfoldable pub effective_elapsed : Tournament → ℕ → ℕ → ℤ
effective_elapsed t start now = pos now -ℤ pos start -ℤ pos (t.total_paused_seconds * 1000)

-- calcExpectedRound
unfoldable pub calc_expected_round : Tournament → ℕ → ℕ → ℕ
calc_expected_round t start now =
    let elapsed = effective_elapsed t start now in
    if leb_ℤ elapsed (pos 0)
    then 1
    else round_from t.structure (pos_part elapsed) (levels t.structure) 1 0

-- The loop of scheduleNextBlindIncrease over so many levels.
unfoldable pub boundary_from : BlindStructure → ℕ → ℕ → ℕ → ℕ
boundary_from s zero level accumulated = accumulated
boundary_from s (suc left) level accumulated =
    boundary_from s left (suc level) (minutes_after s level accumulated)

-- `Number(structure?.current_round) || 1`
unfoldable pub round_of : BlindStructure → ℕ
round_of s = elim s.current_round [ none ↦ 1 | some r ↦ or_number r 1 ]

-- `msUntilNextLevel` of scheduleNextBlindIncrease
unfoldable pub ms_until_next_level : Tournament → ℕ → ℕ → ℤ
ms_until_next_level t start now =
    pos (
      start
      + boundary_from t.structure (round_of t.structure) 1 0 * 60 * 1000
      + t.total_paused_seconds * 1000)
    -ℤ pos now

-- scheduleNextBlindIncrease: the timer that is set, if any, and after how many milliseconds.
unfoldable pub schedule_next_blind_increase : Tournament → ℕ → Option ℕ
schedule_next_blind_increase t now = elim t.session_started_at [
  | none ↦ none
  | some start ↦
      if not (is_active t.status) || is_some t.paused_at
      then none
      else if leb (levels t.structure) (round_of t.structure)
      then none
      else if leb_ℤ (ms_until_next_level t start now) (pos 0)
      then none
      else some (pos_part (ms_until_next_level t start now))
]

-- `Number(current ?? starting) || d`
unfoldable pub blind_of : Option ℕ → Option ℕ → ℕ → ℕ
blind_of (some n) starting d = or_number n d
blind_of none (some n) d = or_number n d
blind_of none none d = d

-- The round and the two blinds.
pub record Blinds : Type 0 where
  pub round : ℕ
  pub sb : ℕ
  pub bb : ℕ

-- The while loop of checkAndAdvanceTournamentBlind, on fuel.
unfoldable pub catch_up : ℕ → ℕ → ℕ → Blinds → Blinds
catch_up zero expected last b = b
catch_up (suc fuel) expected last b =
    let next =
      catch_up fuel expected last record { round = b.round + 1; sb = b.sb * 2; bb = b.bb * 2 } in
    if ltb b.round expected && ltb b.round last then next else b

unfoldable pub blinds_of : BlindStructure → Blinds
blinds_of s = record {
  round = round_of s;
  sb = blind_of s.current_sb s.starting_sb 10;
  bb = blind_of s.current_bb s.starting_bb 20;
}

unfoldable pub with_blinds : BlindStructure → Blinds → BlindStructure
with_blinds s b = record s {
  current_round = some b.round;
  current_sb = some b.sb;
  current_bb = some b.bb;
}

-- `(structure->>'current_round')::int = $3`, where a missing round is NULL.
unfoldable pub is_at_round : ℕ → Option ℕ → Bool
is_at_round round none = false
is_at_round round (some r) = r == round

-- checkAndAdvanceTournamentBlind, on the row `t` that the poller has read and the rows at the time
-- of the update.
unfoldable pub check_and_advance : Tournament → ℕ → ℕ → List Tournament → List Tournament
check_and_advance t start now rows =
    let current = round_of t.structure in
    let last = levels t.structure in
    let expected = calc_expected_round t start now in
    if leb last current || leb expected current
    then rows
    else update_where
        (λ (o : Tournament). o.id == t.id && is_at_round current o.structure.current_round)
        (λ (o : Tournament). record o {
          structure = with_blinds t.structure (catch_up last expected last (blinds_of t.structure));
          updated_at = now;
        })
        rows
