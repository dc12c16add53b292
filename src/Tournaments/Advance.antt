-- ===== src/Tournaments/Advance.antt =====
-- How the poller of src/clubs/services/tournaments.service.ts catches up with the blind clock.
use Prim.Native.Nat.{zero, suc, ◌^◌}
use native.Mathlib.Nat.{pow-succ'}
use poker_crm_backend.Base.{
  ℕ, ◌+◌, ◌-◌, ◌*◌, ◌≤◌, ◌<◌, ◌≡◌, refl, ap, ◌∙◌, arith, Bool, true, false, ◌&&◌, ◌==◌, ltb, leb,
  Bool-cases, inl, inr, List, [], ◌∷◌,
}
use poker_crm_backend.Base.Rows.{update_where}
use poker_crm_backend.Tournaments.{Tournament}
use poker_crm_backend.Tournaments.Blinds.{
  Blinds, catch_up, levels, round_of, blinds_of, with_blinds, is_at_round, check_and_advance,
  calc_expected_round,
}
use poker_crm_backend.Tournaments.Clock.{calc_expected_round-IsWithin}

abbrev raised : Blinds → ℕ → Blinds
raised b k = record { round = b.round + k; sb = b.sb * 2 ^ k; bb = b.bb * 2 ^ k }

blind-suc : (n k : ℕ) → n * 2 * 2 ^ k ≡ n * 2 ^ suc k
blind-suc n k = rw (pow-succ' 2 k) (grind arith)

raised-suc :
    (b : Blinds) (k : ℕ)
    → raised record { round = b.round + 1; sb = b.sb * 2; bb = b.bb * 2 } k ≡ raised b (suc k)
raised-suc b k =
    let round : b.round + 1 + k ≡ b.round + suc k = omega arith in
    rw (round, blind-suc b.sb k, blind-suc b.bb k) refl

catch_up-raised :
    (fuel k expected last : ℕ) (b : Blinds)
    → b.round + k ≡ expected
    → expected ≤ last
    → k ≤ fuel
    → catch_up fuel expected last b ≡ raised b k
unfolding catch_up
catch_up-raised zero zero expected last b h h' f = ground arith
catch_up-raised zero (suc k) expected last b h h' f = absurd (omega arith)
catch_up-raised (suc fuel) zero expected last b h h' f = ground arith
catch_up-raised (suc fuel) (suc k) expected last b h h' f =
    let behind : ltb b.round expected ≡ true = ground arith in
    let below : ltb b.round last ≡ true = ground arith in
    let next : Blinds = record { round = b.round + 1; sb = b.sb * 2; bb = b.bb * 2 } in
    rw (behind, below)
      (catch_up-raised fuel k expected last next (omega arith) h' (omega arith) ∙ raised-suc b k)

-- The round that is expected, with each blind doubled once for each level that was skipped.
abbrev pub caught_up : Tournament → ℕ → ℕ → Blinds
caught_up t start now =
    let skipped = calc_expected_round t start now - round_of t.structure in
    record {
      round = calc_expected_round t start now;
      sb = (blinds_of t.structure).sb * 2 ^ skipped;
      bb = (blinds_of t.structure).bb * 2 ^ skipped;
    }

-- The rows of the tournament that are still in the round that the poller has read.
abbrev pub is_stale : Tournament → Tournament → Bool
is_stale t o = o.id == t.id && is_at_round (round_of t.structure) o.structure.current_round

catch_up-caught_up :
    (t : Tournament) (start now : ℕ)
    → round_of t.structure ≤ calc_expected_round t start now
    → catch_up
        (levels t.structure)
        (calc_expected_round t start now)
        (levels t.structure)
        (blinds_of t.structure)
      ≡ caught_up t start now
unfolding blinds_of
catch_up-caught_up t start now behind =
    let expected = calc_expected_round t start now in
    let (_, within) = calc_expected_round-IsWithin t start now in
    let sum : round_of t.structure + (expected - round_of t.structure) ≡ expected = omega arith in
    catch_up-raised (levels t.structure) (expected - round_of t.structure) expected
      (levels t.structure) (blinds_of t.structure) sum within (omega arith)
    ∙ ap
        (λ (n : ℕ). record {
          round = n;
          sb = (blinds_of t.structure).sb * 2 ^ (expected - round_of t.structure);
          bb = (blinds_of t.structure).bb * 2 ^ (expected - round_of t.structure);
        })
        sum

-- A poller that finds the tournament behind, in a round before the last, writes to each row of the
-- tournament that is still in that round the expected round, which is not past the last, with each
-- blind doubled once for each level that was skipped; all other rows stay.
pub check_and_advance-caught_up :
    (t : Tournament) (start now : ℕ) (rows : List Tournament)
    → round_of t.structure < levels t.structure
    → round_of t.structure < calc_expected_round t start now
    → (check_and_advance t start now rows
        ≡ update_where
            (is_stale t)
            (λ (o : Tournament). record o {
              structure = with_blinds t.structure (caught_up t start now);
              updated_at = now;
            })
            rows)
      × (calc_expected_round t start now ≤ levels t.structure)
unfolding check_and_advance
check_and_advance-caught_up t start now rows below behind =
    let not_last : leb (levels t.structure) (round_of t.structure) ≡ false = ground arith in
    let not_on_time : leb (calc_expected_round t start now) (round_of t.structure) ≡ false =
      ground arith in
    (
      rw (not_last, not_on_time, catch_up-caught_up t start now (omega arith)) refl,
      (calc_expected_round-IsWithin t start now).1,
    )

moved_on :
    (t : Tournament) (start now : ℕ) (o : Tournament)
    → round_of t.structure < calc_expected_round t start now
    → is_stale t
        record o { structure = with_blinds t.structure (caught_up t start now); updated_at = now }
      ≡ false
unfolding is_at_round with_blinds
moved_on t start now o behind = ground arith

-- An update that moves the rows it finds out of its own condition finds none of them again.
update_where-moved_on :
    (p : Tournament → Bool) (f g : Tournament → Tournament) (rows : List Tournament)
    → ((o : Tournament) → p (f o) ≡ false)
    → update_where p g (update_where p f rows) ≡ update_where p f rows
unfolding update_where
update_where-moved_on p f g [] away = refl
update_where-moved_on p f g (o ∷ os) away = elim (Bool-cases (p o)) [
  | inl e ↦ rw (e, away o, update_where-moved_on p f g os away) refl
  | inr e ↦ rw (e, e, update_where-moved_on p f g os away) refl
]

-- Once a poller has moved a tournament on, a second one that read the same row, at whatever time it
-- comes to its update, changes nothing.
pub check_and_advance-once :
    (t : Tournament) (start now now' : ℕ) (rows : List Tournament)
    → round_of t.structure < levels t.structure
    → round_of t.structure < calc_expected_round t start now
    → check_and_advance t start now' (check_and_advance t start now rows)
      ≡ check_and_advance t start now rows
check_and_advance-once t start now now' rows below behind =
    let (first, _) = check_and_advance-caught_up t start now rows below behind in
    let not_last : leb (levels t.structure) (round_of t.structure) ≡ false = ground arith in
    elim (Bool-cases (leb (calc_expected_round t start now') (round_of t.structure))) [
      | inl e ↦ unfold check_and_advance in (rw (not_last, e) refl)
      | inr e ↦ rw first (
          unfold check_and_advance in
          rw (not_last, e)
            (update_where-moved_on (is_stale t) _ _ rows (λ o. moved_on t start now o behind)))
    ]
