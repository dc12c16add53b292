-- ===== src/SessionClock/Cycles.antt =====
-- Play time of src/utils/table-session-clock.ts over any number of pauses and resumptions.
use poker_crm_backend.Base.{
  ℕ, ◌≡◌, ◌∙◌, ap, refl, arith, false, Option, none, some, List, [], ◌∷◌, inl, inr,
}
use poker_crm_backend.Base.Int.{
  ℤ, pos, ◌+ℤ◌, ◌-ℤ◌, ◌≤ℤ◌, floor_thousandth, floor_thousandth_mono, int_laws, bound_laws,
  leb_ℤ_cases,
}
use poker_crm_backend.SessionClock.{
  ParsedTableSessionClock, baseline_of, snapshot_since, paused_seconds, running_seconds,
  compute_player_play_seconds,
}
use poker_crm_backend.SessionClock.Monotone.{play_nonneg}
use poker_crm_backend.SessionClock.Pauses.{
  SeatedPlayer, snapshots, stopped_clock, pause_clock, resume_clock,
}
use poker_crm_backend.SessionClock.Snapshots.{seat_of, snapshots-seat_of}

-- A pause, who was seated at it, and the resumption after it.
pub record Cycle : Type 0 where
  pub paused : ℤ
  pub seated : List SeatedPlayer
  pub resumed : ℤ

unfoldable pub run_cycles : List Cycle → ParsedTableSessionClock → ParsedTableSessionClock
run_cycles [] clock = clock
run_cycles (c ∷ cs) clock =
    run_cycles cs (resume_clock c.resumed (pause_clock c.seated c.paused clock))

-- From a start to an instant, in order: every pause finds the player at the seat, and no pause and
-- no resumption comes before the one that it follows.
abbrev pub Follows : ℕ → ℤ → ℤ → List Cycle → ℤ → Type 0
Follows id seat start [] now = start ≤ℤ now
Follows id seat start (c ∷ cs) now =
    (seat_of id c.seated ≡ some seat)
    × (start ≤ℤ c.paused)
    × (c.paused ≤ℤ c.resumed)
    × Follows id seat c.resumed cs now

-- The whole seconds of the segments in which the session runs.
abbrev pub running : ℤ → List Cycle → ℤ → ℤ
running start [] now = floor_thousandth (now -ℤ start)
running start (c ∷ cs) now = floor_thousandth (c.paused -ℤ start) +ℤ running c.resumed cs now

-- A running clock with a carry of the player since its start.
record Carries (id : ℕ) (base start : ℤ) (clock : ParsedTableSessionClock) : Type 0 where
  off : clock.staff_paused ≡ false
  started : clock.session_started_at ≡ some start
  carry : clock.player_baseline_seconds id ≡ some base

floor_nonneg : (a b : ℤ) → a ≤ℤ b → pos 0 ≤ℤ floor_thousandth (b -ℤ a)
floor_nonneg a b h =
    let up = floor_thousandth_mono (pos 0) (b -ℤ a) (omega int_laws) in
    unfold floor_thousandth in up

module _ (id : ℕ) (seat : ℤ) where
  Carries-play :
      (base start now : ℤ) (clock : ParsedTableSessionClock)
      → Carries id base start clock
      → seat ≤ℤ start
      → pos 0 ≤ℤ base
      → start ≤ℤ now
      → compute_player_play_seconds seat clock now (some id)
        ≡ base +ℤ floor_thousandth (now -ℤ start)
  unfolding compute_player_play_seconds running_seconds snapshot_since baseline_of
  Carries-play base start now clock k early some_time later =
      let grown = floor_nonneg start now later in
      elim (leb_ℤ_cases seat start) [
        | inl (e, _) ↦
            rw (k.off, k.started, running_seconds, k.carry, e) (omega (bound_laws, int_laws))
        | inr (_, late) ↦ absurd (omega arith)
      ]

  stopped_seconds :
      (clock : ParsedTableSessionClock) (paused base : ℤ)
      → clock.paused_at ≡ some paused
      → clock.player_baseline_seconds id ≡ some base
      → seat ≤ℤ paused
      → pos 0 ≤ℤ base
      → paused_seconds seat clock (some id) ≡ base
  unfolding paused_seconds snapshot_since baseline_of
  stopped_seconds clock paused base p b early some_time = elim (leb_ℤ_cases seat paused) [
    | inl (k, _) ↦ rw (paused_seconds, p, b, k) (omega bound_laws)
    | inr (_, late) ↦ absurd (omega arith)
  ]

  module _ (clock : ParsedTableSessionClock) (start paused : ℤ) (seated : List SeatedPlayer)
      (started : clock.session_started_at ≡ some start) (early : seat ≤ℤ paused)
      (there : seat_of id seated ≡ some seat) where
    pause_clock-stopped_clock :
        pause_clock seated paused clock ≡ stopped_clock seated paused start clock
    unfolding pause_clock
    pause_clock-stopped_clock =
        ap
          (λ (o : Option ℤ). elim o [
            | none ↦ clock
            | some from ↦ stopped_clock seated paused from clock
          ])
          started

    snapshot_there :
        snapshots clock paused seated id
        ≡ some (compute_player_play_seconds seat clock paused (some id))
    snapshot_there = snapshots-seat_of clock paused id seated ∙ rw there refl

    stopped_clock-stands :
        (now : ℤ)
        → compute_player_play_seconds seat (stopped_clock seated paused start clock) now (some id)
          ≡ compute_player_play_seconds seat clock paused (some id)
    unfolding compute_player_play_seconds stopped_clock
    stopped_clock-stands now =
        stopped_seconds (stopped_clock seated paused start clock) paused _ refl snapshot_there early
          (play_nonneg seat clock paused (some id))

    -- While the table is paused, the time of the player is that of the pause.
    pause_clock-stands :
        (now : ℤ)
        → compute_player_play_seconds seat (pause_clock seated paused clock) now (some id)
          ≡ compute_player_play_seconds seat clock paused (some id)
    pause_clock-stands now = rw pause_clock-stopped_clock (stopped_clock-stands now)

    resume_clock-Carries :
        (resumed : ℤ)
        → Carries id
            (compute_player_play_seconds seat clock paused (some id))
            resumed
            (resume_clock resumed (pause_clock seated paused clock))
    unfolding resume_clock stopped_clock
    resume_clock-Carries resumed =
        rw pause_clock-stopped_clock record { off = refl; started = refl; carry = snapshot_there }

  run_cycles-running :
      (cs : List Cycle) (base start now : ℤ) (clock : ParsedTableSessionClock)
      → Carries id base start clock
      → seat ≤ℤ start
      → pos 0 ≤ℤ base
      → Follows id seat start cs now
      → compute_player_play_seconds seat (run_cycles cs clock) now (some id)
        ≡ base +ℤ running start cs now
  unfolding run_cycles
  run_cycles-running [] base start now clock k early some_time h =
      Carries-play base start now clock k early some_time h
  run_cycles-running (c ∷ cs) base start now clock k early some_time (there, on, off, later) =
      let here = Carries-play base start c.paused clock k early some_time on in
      let now_early : seat ≤ℤ c.paused = (omega arith) in
      let rest =
        run_cycles-running cs _ c.resumed now _
          (resume_clock-Carries clock start c.paused c.seated k.started now_early there c.resumed)
          (omega arith) (play_nonneg seat clock c.paused (some id)) later in
      rest ∙ rw here (omega int_laws)

-- A running session is paused and resumed, once or more, and the last resumption is no later than an
-- instant; every pause finds the player at the one seat, taken no later than the first pause, and
-- no pause or resumption comes before the one that it follows. On the clock of the first pause the
-- play time of the player is at every instant what it was at the pause. At the instant after the
-- last resumption it is what it was at the first pause and, added to it, the whole seconds of each
-- segment in which the session has run since: nothing of a pause counts.
pub run_cycles-adds_up :
    (id : ℕ) (seat start now : ℤ) (clock : ParsedTableSessionClock) (c : Cycle) (cs : List Cycle)
    → clock.session_started_at ≡ some start
    → seat ≤ℤ c.paused
    → Follows id seat start (c ∷ cs) now
    → ((t : ℤ)
        → compute_player_play_seconds seat (pause_clock c.seated c.paused clock) t (some id)
          ≡ compute_player_play_seconds seat clock c.paused (some id))
      × (compute_player_play_seconds seat (run_cycles (c ∷ cs) clock) now (some id)
          ≡ compute_player_play_seconds seat clock c.paused (some id) +ℤ running c.resumed cs now)
unfolding run_cycles
run_cycles-adds_up id seat start now clock c cs started early (there, on, off, later) = (
  pause_clock-stands id seat clock start c.paused c.seated started early there,
  run_cycles-running id seat cs _ c.resumed now _
      (resume_clock-Carries id seat clock start c.paused c.seated started early there c.resumed)
      (omega arith) (play_nonneg seat clock c.paused (some id)) later,
)
