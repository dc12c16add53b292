-- ===== src/SessionClock/Monotone.antt =====
-- The play time of src/utils/table-session-clock.ts from one instant to a later one.
use poker_crm_backend.Base.{
  ℕ, ◌≡◌, arith, true, false, Option, none, some, Bool-cases, Option-cases, inl, inr,
}
use poker_crm_backend.Base.Int.{
  ℤ, pos, ◌+ℤ◌, ◌-ℤ◌, ◌≤ℤ◌, leb_ℤ, max_ℤ, floor_thousandth, floor_thousandth_mono, bound_laws,
  int_laws,
}
use poker_crm_backend.SessionClock.{
  ParsedTableSessionClock, baseline_of, snapshot_since, segment_seconds, paused_seconds,
  running_seconds, compute_player_play_seconds,
}

-- A positive part is no less than 0, and grows with its number.
max_nonneg : (a : ℤ) → pos 0 ≤ℤ max_ℤ (pos 0) a
max_nonneg a = omega bound_laws

max_mono : (a b : ℤ) → a ≤ℤ b → max_ℤ (pos 0) a ≤ℤ max_ℤ (pos 0) b
max_mono a b h = omega bound_laws

≤ℤ-refl : (a : ℤ) → a ≤ℤ a
≤ℤ-refl a = omega arith

floor_since_mono :
    (now now' t : ℤ) → now ≤ℤ now' → floor_thousandth (now -ℤ t) ≤ℤ floor_thousandth (now' -ℤ t)
floor_since_mono now now' t h = floor_thousandth_mono (now -ℤ t) (now' -ℤ t) (omega int_laws)

add_mono : (a b c : ℤ) → a ≤ℤ b → (a +ℤ c ≤ℤ b +ℤ c) × (c +ℤ a ≤ℤ c +ℤ b)
add_mono a b c h = (omega int_laws, omega int_laws)

segment_nonneg : (p s : Option ℤ) (carry seat : ℤ) → pos 0 ≤ℤ segment_seconds p s carry seat
unfolding segment_seconds
segment_nonneg none s carry seat = max_nonneg carry
segment_nonneg (some p) none carry seat = max_nonneg carry
segment_nonneg (some p) (some s) carry seat = max_nonneg _

paused_nonneg :
    (seat : ℤ) (clock : ParsedTableSessionClock) (player : Option ℕ)
    → pos 0 ≤ℤ paused_seconds seat clock player
unfolding paused_seconds
paused_nonneg seat clock player =
    elim (Option-cases (snapshot_since (baseline_of player clock) clock.paused_at seat)) [
      | inl e ↦
          rw (paused_seconds, e)
            (segment_nonneg clock.paused_at clock.segment_start clock.paused_carry_seconds seat)
      | inr (b, e) ↦ rw (paused_seconds, e) (max_nonneg b)
    ]

-- The time at one instant is not negative, and at most that of a later instant.
pub Grows : ℤ → ℤ → Type 0
Grows a b = (pos 0 ≤ℤ a) × (a ≤ℤ b)

max-Grows : (a b : ℤ) → a ≤ℤ b → Grows (max_ℤ (pos 0) a) (max_ℤ (pos 0) b)
unfolding Grows
max-Grows a b h = (max_nonneg a, max_mono a b h)

running_seconds-Grows :
    (seat : ℤ) (clock : ParsedTableSessionClock) (start now now' : ℤ) (player : Option ℕ)
    → now ≤ℤ now'
    → Grows
        (running_seconds seat clock start now player)
        (running_seconds seat clock start now' player)
unfolding running_seconds
running_seconds-Grows seat clock start now now' player h =
    let later = floor_since_mono now now' (max_ℤ seat start) h in
    elim (Option-cases (snapshot_since (baseline_of player clock) (some start) seat)) [
      | inr (b, e) ↦
          rw (running_seconds, e)
            (max-Grows _ _ (add_mono _ _ b (floor_since_mono now now' start h)).1)
      | inl e ↦ elim (Bool-cases (leb_ℤ start seat)) [
        | inl e' ↦ rw (running_seconds, e, e') (max-Grows _ _ later)
        | inr e' ↦
            rw (running_seconds, e, e')
              (max-Grows _ _ (add_mono _ _ clock.paused_carry_seconds later).0)
      ]
    ]

-- The three states of a clock.
module _ (seat : ℤ) (clock : ParsedTableSessionClock) (now : ℤ) (player : Option ℕ) where
  play_paused :
      clock.staff_paused ≡ true
      → compute_player_play_seconds seat clock now player ≡ paused_seconds seat clock player
  unfolding compute_player_play_seconds
  play_paused e = simp e

  play_unstarted :
      clock.staff_paused ≡ false
      → clock.session_started_at ≡ none
      → compute_player_play_seconds seat clock now player
        ≡ max_ℤ (pos 0) (floor_thousandth (now -ℤ seat))
  unfolding compute_player_play_seconds
  play_unstarted e e' = simp (e, e')

  play_running :
      {start : ℤ}
      → clock.staff_paused ≡ false
      → clock.session_started_at ≡ some start
      → compute_player_play_seconds seat clock now player
        ≡ running_seconds seat clock start now player
  unfolding compute_player_play_seconds
  play_running e e' = simp (e, e')

-- For any seat, clock and player, the play time is never negative, and never less at a later instant.
pub compute_player_play_seconds-Grows :
    (seat : ℤ) (clock : ParsedTableSessionClock) (now now' : ℤ) (player : Option ℕ)
    → now ≤ℤ now'
    → Grows
        (compute_player_play_seconds seat clock now player)
        (compute_player_play_seconds seat clock now' player)
unfolding Grows
compute_player_play_seconds-Grows seat clock now now' player h =
    elim (Bool-cases clock.staff_paused) [
      | inl e ↦
          rw (play_paused seat clock now player e, play_paused seat clock now' player e)
            (paused_nonneg seat clock player, ≤ℤ-refl (paused_seconds seat clock player))
      | inr e ↦ elim (Option-cases clock.session_started_at) [
        | inl e' ↦
            rw
              (
                play_unstarted seat clock now player e e',
                play_unstarted seat clock now' player e e',
              )
              (max-Grows _ _ (floor_since_mono now now' seat h))
        | inr (start, e') ↦
            rw (play_running seat clock now player e e', play_running seat clock now' player e e')
              (running_seconds-Grows seat clock start now now' player h)
      ]
    ]

pub play_nonneg :
    (seat : ℤ) (clock : ParsedTableSessionClock) (now : ℤ) (player : Option ℕ)
    → pos 0 ≤ℤ compute_player_play_seconds seat clock now player
unfolding Grows
play_nonneg seat clock now player =
    (compute_player_play_seconds-Grows seat clock now now player (≤ℤ-refl now)).0
