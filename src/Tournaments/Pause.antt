-- ===== src/Tournaments/Pause.antt =====
-- A pause of src/clubs/services/tournaments.service.ts stops the blind clock.
use mathlib.Core.Option.{some-injective}
use poker_crm_backend.Base.{
  ap, ℕ, ◌+◌, ◌-◌, ◌*◌, ◌/◌, ◌≤◌, ◌≡◌, refl, sym, ◌∙◌, true, not, none, some, is_some,
}
use poker_crm_backend.Base.Int.{pos, ◌+ℤ◌, ◌-ℤ◌, ◌≤ℤ◌, ◌<ℤ◌, int_laws}
use poker_crm_backend.Base.Result.{
  ok, bad_request, not_found, throw_if-eq-ok, or_throw-eq-ok, ok-injective,
}
use poker_crm_backend.Base.Rows.{find?, find?-update_where, find?-sound}
use poker_crm_backend.Tournaments.{Tournament, is_active}
use poker_crm_backend.Tournaments.Blinds.{effective_elapsed}
use poker_crm_backend.Tournaments.State.{
  TournamentDb, is_tournament, get_tournament, set_tournament, pause_tournament, resume_tournament,
}

-- The tournament is there, as the change of a row made it.
pub set_tournament-found :
    (club id : ℕ) (f : Tournament → Tournament) (s : TournamentDb) {t : Tournament}
    → is_tournament club id (f t) ≡ true
    → find? (is_tournament club id) s.tournaments ≡ some t
    → find? (is_tournament club id) (set_tournament club id f s).tournaments ≡ some (f t)
unfolding set_tournament
set_tournament-found club id f s keep h =
    find?-update_where (is_tournament club id) f s.tournaments keep h

-- Whole seconds of a span of time, against the span.
seconds-IsWithin :
    (start p m n : ℕ)
    → m ≤ n
    → let before = pos m -ℤ pos start -ℤ pos (p * 1000) in
      let after = pos n -ℤ pos start -ℤ pos ((p + (n - m) / 1000) * 1000) in
      (before ≤ℤ after) × (after <ℤ before +ℤ pos 1000)
seconds-IsWithin start p m n le = (omega int_laws, omega int_laws)

abbrev held : ℕ → Tournament → Tournament
held now t = record t { paused_at = some now; updated_at = now }

abbrev released : ℕ → ℕ → Tournament → Tournament
released paused now t = record t {
  paused_at = none;
  total_paused_seconds = t.total_paused_seconds + (now - paused) / 1000;
  updated_at = now;
}

pause_tournament-held :
    (club id now : ℕ) (s s' : TournamentDb)
    → pause_tournament club id now s ≡ ok s'
    → (t : Tournament) × (find? (is_tournament club id) s.tournaments ≡ some t)
      × (find? (is_tournament club id) s'.tournaments ≡ some (held now t))
unfolding pause_tournament get_tournament is_tournament
pause_tournament-held club id now s s' h =
    let (t, ht, h1) =
      or_throw-eq-ok (find? (is_tournament club id) s.tournaments) (not_found 0) _ h in
    let (_, h2) = throw_if-eq-ok (not (is_active t.status)) (bad_request 0) _ h1 in
    let (_, h3) = throw_if-eq-ok (is_some t.paused_at) (bad_request 1) _ h2 in
    let mine = find?-sound (is_tournament club id) s.tournaments ht in
    (t, ht, rw (← ok-injective _ s' h3) (set_tournament-found club id (held now) s mine ht))

resume_tournament-released :
    (club id now : ℕ) (s s' : TournamentDb)
    → resume_tournament club id now s ≡ ok s'
    → (t : Tournament) × (paused : ℕ) × (find? (is_tournament club id) s.tournaments ≡ some t)
      × (t.paused_at ≡ some paused)
      × (find? (is_tournament club id) s'.tournaments ≡ some (released paused now t))
unfolding resume_tournament get_tournament is_tournament
resume_tournament-released club id now s s' h =
    let (t, ht, h1) =
      or_throw-eq-ok (find? (is_tournament club id) s.tournaments) (not_found 0) _ h in
    let (_, h2) = throw_if-eq-ok (not (is_active t.status)) (bad_request 0) _ h1 in
    let (p, hp, h3) = or_throw-eq-ok t.paused_at (bad_request 1) _ h2 in
    let mine = find?-sound (is_tournament club id) s.tournaments ht in
    (
      t,
      p,
      ht,
      hp,
      rw (← ok-injective _ s' h3) (
          set_tournament-found club id
            (λ (o : Tournament). record o {
              paused_at = none;
              total_paused_seconds = t.total_paused_seconds + (now - p) / 1000;
              updated_at = now;
            })
            s mine ht),
    )

-- A pause of a tournament stops the blind clock: when it is resumed, no earlier than it was paused,
-- the time elapsed is what it was at the pause, but for less than a second that the count of whole
-- seconds leaves out.
pub resume_tournament-effective_elapsed :
    (club id start now now' : ℕ) (s s' s'' : TournamentDb)
    → now ≤ now'
    → pause_tournament club id now s ≡ ok s'
    → resume_tournament club id now' s' ≡ ok s''
    → (t : Tournament) × (t'' : Tournament) × (get_tournament club id s ≡ ok t)
      × (get_tournament club id s'' ≡ ok t'')
      × (effective_elapsed t start now ≤ℤ effective_elapsed t'' start now')
      × (effective_elapsed t'' start now' <ℤ effective_elapsed t start now +ℤ pos 1000)
unfolding get_tournament effective_elapsed
resume_tournament-effective_elapsed club id start now now' s s' s'' le h h' =
    let (t, ht, hs) = pause_tournament-held club id now s s' h in
    let (u, p, hu, hp, hr) = resume_tournament-released club id now' s' s'' h' in
    let same : held now t ≡ u = some-injective _ u (sym hs ∙ hu) in
    let here : now ≡ p = some-injective now p (ap (λ (o : Tournament). o.paused_at) same ∙ hp) in
    let found : find? (is_tournament club id) s''.tournaments
        ≡ some (released now now' (held now t)) =
      rw (same, here) hr in
    let (more, less) = seconds-IsWithin start t.total_paused_seconds now now' le in
    (t, released now now' (held now t), rw ht refl, rw found refl, more, less)
