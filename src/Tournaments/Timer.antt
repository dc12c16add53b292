-- ===== src/Tournaments/Timer.antt =====
-- The timer of src/clubs/services/tournaments.service.ts and its poller agree on when a round is
-- over, and the round that the poller expects never falls.
use Prim.Native.Nat.{suc}
use mathlib.Core.Path.{subst}
use poker_crm_backend.Base.{ℕ, ◌+◌, ◌-◌, ◌*◌, ◌≤◌, ◌<◌, ◌≡◌, refl, arith, false, ltb, leb, inl, inr}
use poker_crm_backend.Base.Int.{
  ℤ, pos, negsuc, pos_part, neg_part, ◌<ℤ◌, ◌≤ℤ◌, ◌-ℤ◌, leb_ℤ, leb_ℤ_cases, -ℤ_parts, int_laws,
}
use poker_crm_backend.Tournaments.{Tournament, BlindStructure}
use poker_crm_backend.Tournaments.Blinds.{
  levels, minutes_after, round_from, effective_elapsed, calc_expected_round, boundary_from,
  round_of, ms_until_next_level,
}
use poker_crm_backend.Tournaments.Clock.{
  boundary_from-Grows, minutes_after-Grows, level_minutes-positive, round_from-boundary_from,
  round_from-Grows, levels-positive, calc_expected_round-IsWithin,
}

boundary-positive : (s : BlindStructure) (n : ℕ) → 1 ≤ boundary_from s (suc n) 1 0
unfolding boundary_from
boundary-positive s n = omega (
  arith,
  boundary_from-Grows s n 2 (minutes_after s 1 0),
  minutes_after-Grows s 1 0,
  level_minutes-positive s,
)

neg_part-positive : (a : ℤ) → pos 0 <ℤ a → neg_part a ≡ 0
neg_part-positive (pos n) h = refl
neg_part-positive (negsuc n) h = absurd (omega arith)

elapsed-Grows :
    (t : Tournament) (start now now' : ℕ)
    → now ≤ now'
    → effective_elapsed t start now ≤ℤ effective_elapsed t start now'
unfolding effective_elapsed
elapsed-Grows t start now now' le = omega int_laws

expected-Grows :
    (t : Tournament) (start now now' : ℕ)
    → now ≤ now'
    → calc_expected_round t start now ≤ calc_expected_round t start now'
unfolding calc_expected_round
expected-Grows t start now now' le =
    let s = t.structure in
    let e = effective_elapsed t start now in
    let e' = effective_elapsed t start now' in
    let more = elapsed-Grows t start now now' le in
    elim (leb_ℤ_cases e (pos 0)) [
      | inl (h, early) ↦
          rw h (unfold calc_expected_round in (calc_expected_round-IsWithin t start now').0)
      | inr (h, gt) ↦
          let h' : leb_ℤ e' (pos 0) ≡ false = ground arith in
          rw (h, h')
            (round_from-Grows s (pos_part e) (pos_part e') (levels s) 1 0 (omega arith)
              (levels-positive s)
              (omega (arith, neg_part-positive e gt, neg_part-positive e' (omega arith))))
    ]

-- As time goes on, the expected round never falls, and it stays between the first and the last.
pub calc_expected_round-Grows :
    (t : Tournament) (start now now' : ℕ)
    → now ≤ now'
    → (1 ≤ calc_expected_round t start now)
      × (calc_expected_round t start now ≤ calc_expected_round t start now')
      × (calc_expected_round t start now' ≤ levels t.structure)
calc_expected_round-Grows t start now now' le = (
  (calc_expected_round-IsWithin t start now).0,
  expected-Grows t start now now' le,
  (calc_expected_round-IsWithin t start now').1,
)

round_from-first :
    (s : BlindStructure) (elapsed c : ℕ)
    → suc c < levels s
    → ltb (suc c) (round_from s elapsed (levels s) 1 0)
      ≡ leb (boundary_from s (suc c) 1 0 * 60000) elapsed
round_from-first s elapsed c h =
    let one_more : 1 + c ≡ suc c = omega arith in
    subst
      (λ (k : ℕ).
        ltb k (round_from s elapsed (levels s) 1 0)
        ≡ leb (boundary_from s (suc c) 1 0 * 60000) elapsed)
      one_more (round_from-boundary_from s elapsed (levels s) 1 0 c (omega arith) (omega arith))

-- The milliseconds to a boundary of so many minutes, against the time elapsed.
abbrev until : ℕ → ℕ → ℕ → ℕ → ℤ
until start b q now = pos (start + b * 60 * 1000 + q) -ℤ pos now

abbrev since_start : ℕ → ℕ → ℕ → ℤ
since_start start q now = pos now -ℤ pos start -ℤ pos q

until-late :
    (start b q now : ℕ)
    → pos 0 <ℤ since_start start q now
    → leb_ℤ (until start b q now) (pos 0) ≡ leb (b * 60000) (pos_part (since_start start q now))
until-late start b q now h = ground (
  arith,
  -ℤ_parts (pos (start + b * 60 * 1000 + q)) (pos now),
  -ℤ_parts (pos now) (pos start),
  -ℤ_parts (pos now -ℤ pos start) (pos q),
  neg_part-positive (pos now -ℤ pos start -ℤ pos q) h,
)

until-early :
    (start b q now : ℕ)
    → 1 ≤ b
    → since_start start q now ≤ℤ pos 0
    → leb_ℤ (until start b q now) (pos 0) ≡ false
until-early start b q now least h = ground (
  arith,
  -ℤ_parts (pos (start + b * 60 * 1000 + q)) (pos now),
  -ℤ_parts (pos now) (pos start),
  -ℤ_parts (pos now -ℤ pos start) (pos q),
)

-- In a round from the first to the last but one, the boundary that the timer waits for is reached
-- exactly when the round that the poller expects is past the current one.
pub ms_until_next_level-calc_expected_round :
    (t : Tournament) (start now : ℕ)
    → 1 ≤ round_of t.structure
    → round_of t.structure < levels t.structure
    → leb_ℤ (ms_until_next_level t start now) (pos 0)
      ≡ ltb (round_of t.structure) (calc_expected_round t start now)
unfolding ms_until_next_level calc_expected_round effective_elapsed
ms_until_next_level-calc_expected_round t start now low high =
    let s = t.structure in
    let elapsed = effective_elapsed t start now in
    let c = round_of s - 1 in
    let is_suc : round_of s ≡ suc c = omega arith in
    let least = boundary-positive s c in
    rw is_suc (elim (leb_ℤ_cases elapsed (pos 0)) [
      | inl (e, le) ↦ rw (e, until-early start _ _ now least le) (ground arith)
      | inr (e, gt) ↦
          let past = round_from-first s (pos_part elapsed) c (omega arith) in
          rw (e, past) (until-late start _ _ now gt)
    ])
