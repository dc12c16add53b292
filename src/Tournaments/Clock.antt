-- ===== src/Tournaments/Clock.antt =====
-- The loop of calcExpectedRound of src/clubs/services/tournaments.service.ts
-- against the boundaries that scheduleNextBlindIncrease adds up.
use Prim.Native.Nat.{zero, suc}
use poker_crm_backend.Base.{
  ℕ, ◌+◌, ◌*◌, ◌≤◌, ◌<◌, ◌≡◌, arith, ltb, leb, if◌then◌else◌, Bool-cases, inl, inr,
}
use poker_crm_backend.Base.Int.{pos, leb_ℤ}
use poker_crm_backend.Tournaments.{Tournament, BlindStructure, or_number}
use poker_crm_backend.Tournaments.Blinds.{
  level_minutes, levels, minutes_after, round_from, effective_elapsed, calc_expected_round,
  boundary_from,
}

or_number-positive : (n d : ℕ) → 1 ≤ d → 1 ≤ or_number n d
unfolding or_number
or_number-positive n d h = ground arith

pub levels-positive : (s : BlindStructure) → 1 ≤ levels s
unfolding levels
levels-positive s = or_number-positive s.number_of_levels 15 (omega arith)

pub level_minutes-positive : (s : BlindStructure) → 1 ≤ level_minutes s
unfolding level_minutes
level_minutes-positive s = or_number-positive s.minutes_per_level 15 (omega arith)

pub minutes_after-Grows :
    (s : BlindStructure) (level acc : ℕ) → acc + level_minutes s ≤ minutes_after s level acc
unfolding minutes_after
minutes_after-Grows s level acc = ground arith

pub boundary_from-Grows : (s : BlindStructure) (n level acc : ℕ) → acc ≤ boundary_from s n level acc
unfolding boundary_from
boundary_from-Grows s zero level acc = omega arith
boundary_from-Grows s (suc n) level acc = omega (
  arith,
  boundary_from-Grows s n (suc level) (minutes_after s level acc),
  minutes_after-Grows s level acc,
)

-- One round of the loop: the level holds until it and its break are over.
round_from-step :
    (s : BlindStructure) (elapsed left level acc : ℕ)
    → round_from s elapsed (suc left) level acc ≡ (
        if ltb elapsed (minutes_after s level acc * 60000)
        then level
        else round_from s elapsed left (suc level) (minutes_after s level acc))
unfolding round_from minutes_after
round_from-step s elapsed left level acc = ground arith

pub round_from-IsWithin :
    (s : BlindStructure) (elapsed left level acc : ℕ)
    → level + left ≡ suc (levels s)
    → level ≤ levels s
    → (level ≤ round_from s elapsed left level acc)
      × (round_from s elapsed left level acc ≤ levels s)
unfolding round_from
round_from-IsWithin s elapsed zero level acc h h' = (omega arith, omega arith)
round_from-IsWithin s elapsed (suc zero) level acc h h' =
    rw (round_from-step s elapsed zero level acc) (ground arith)
round_from-IsWithin s elapsed (suc (suc left)) level acc h h' =
    rw (round_from-step s elapsed (suc left) level acc) (
      unfold round_from in
      ground (
        arith,
        round_from-IsWithin s elapsed (suc left) (suc level) (minutes_after s level acc)
            (omega arith) (omega arith),
      ))

-- The round passes a level exactly when the boundary after that level is reached.
pub round_from-boundary_from :
    (s : BlindStructure) (elapsed left level acc c : ℕ)
    → level + left ≡ suc (levels s)
    → level + c < levels s
    → ltb (level + c) (round_from s elapsed left level acc)
      ≡ leb (boundary_from s (suc c) level acc * 60000) elapsed
unfolding boundary_from
round_from-boundary_from s elapsed zero level acc c h h' = absurd (omega arith)
round_from-boundary_from s elapsed (suc left) level acc zero h h' =
    elim (Bool-cases (ltb elapsed (minutes_after s level acc * 60000))) [
      | inl e ↦ rw (round_from-step s elapsed left level acc, e) (ground arith)
      | inr e ↦
          rw (round_from-step s elapsed left level acc, e)
            (ground (
              arith,
              round_from-IsWithin s elapsed left (suc level) (minutes_after s level acc)
                  (omega arith) (omega arith),
            ))
    ]
round_from-boundary_from s elapsed (suc left) level acc (suc c) h h' =
    let end = minutes_after s level acc in
    let same : level + suc c ≡ suc level + c = omega arith in
    let ih =
      round_from-boundary_from s elapsed left (suc level) end c (omega arith) (omega arith) in
    elim (Bool-cases (ltb elapsed (end * 60000))) [
      | inl e ↦
          rw (round_from-step s elapsed left level acc, e)
            (ground (arith, boundary_from-Grows s (suc c) (suc level) end))
      | inr e ↦ rw (round_from-step s elapsed left level acc, e, same) ih
    ]

-- The expected round lies between the first and the last.
pub calc_expected_round-IsWithin :
    (t : Tournament) (start now : ℕ)
    → (1 ≤ calc_expected_round t start now) × (calc_expected_round t start now ≤ levels t.structure)
unfolding calc_expected_round
calc_expected_round-IsWithin t start now =
    elim (Bool-cases (leb_ℤ (effective_elapsed t start now) (pos 0))) [
      | inl e ↦ rw e (omega arith, levels-positive t.structure)
      | inr e ↦ rw e (
          round_from-IsWithin t.structure _ (levels t.structure) 1 0 (omega arith)
            (levels-positive t.structure))
    ]

pub round_from-Grows :
    (s : BlindStructure) (elapsed elapsed' left level acc : ℕ)
    → level + left ≡ suc (levels s)
    → level ≤ levels s
    → elapsed ≤ elapsed'
    → round_from s elapsed left level acc ≤ round_from s elapsed' left level acc
round_from-Grows s elapsed elapsed' zero level acc h h' le = absurd (omega arith)
round_from-Grows s elapsed elapsed' (suc left) level acc h h' le =
    let end = minutes_after s level acc in
    rw (round_from-step s elapsed left level acc, round_from-step s elapsed' left level acc)
      (elim (Bool-cases (ltb level (levels s))) [
        | inl e ↦ ground (
          arith,
          round_from-Grows s elapsed elapsed' left (suc level) end (omega arith) (ground arith) le,
          round_from-IsWithin s elapsed' left (suc level) end (omega arith) (ground arith),
        )
        | inr e ↦ last_level left (ground arith)
      ])
  where
    last_level :
        (n : ℕ)
        → n ≡ 0
        → (if ltb elapsed (minutes_after s level acc * 60000)
            then level
            else round_from s elapsed n (suc level) (minutes_after s level acc))
          ≤ (if ltb elapsed' (minutes_after s level acc * 60000)
              then level
              else round_from s elapsed' n (suc level) (minutes_after s level acc))
    last_level n h = rw h (unfold round_from in ground arith)
