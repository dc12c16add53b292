-- ===== src/Tournaments/Over.antt =====
-- A tournament of src/clubs/services/tournaments.service.ts ends once.
use poker_crm_backend.Base.{ℕ, ◌≡◌, refl, false, not, Option, none, some, List, All}
use poker_crm_backend.Base.Result.{
  ok, err, bad_request, not_found, throw_if-eq-ok, or_throw-eq-ok, >>=-eq-ok, ok-injective,
}
use poker_crm_backend.Base.Rows.{find?, find?-sound}
use poker_crm_backend.Floor.Format.{NumberFormat}
use poker_crm_backend.Tournaments.{Tournament, TournamentStatus, is_active, is_finished}
use poker_crm_backend.Tournaments.State.{
  TournamentDb, is_tournament, get_tournament, set_tournament, set_entrants, start_tournament,
  pause_tournament, resume_tournament, stop_tournament, increase_blind,
}
use poker_crm_backend.Tournaments.Play.{
  RawWinner, Winner, check_winners, check_end, has_duplicates, winner_ids, winner_positions,
  misses_participant, no_winners, end_locked, end_tournament,
}
use poker_crm_backend.Tournaments.Pause.{set_tournament-found}
use poker_crm_backend.Tournaments.Ended.{
  HasNoDebt, Pays, award_all-Pays, award_all-tournaments, check_winners-HasNoDebt,
}

-- Every change of the tournament is refused.
pub record IsOver (club id : ℕ) (s : TournamentDb) : Type 0 where
  pub no_start : (now : ℕ) → start_tournament club id now s ≡ err (bad_request 1)
  pub no_pause : (now : ℕ) → pause_tournament club id now s ≡ err (bad_request 0)
  pub no_resume : (now : ℕ) → resume_tournament club id now s ≡ err (bad_request 0)
  pub no_stop : (now : ℕ) → stop_tournament club id now s ≡ err (bad_request 0)
  pub no_blinds :
      (blinds : Option (ℕ × ℕ)) (now : ℕ)
      → increase_blind club id blinds now s ≡ err (bad_request 0)
  pub no_end :
      (fmt : NumberFormat) (t : Tournament) (ws : List Winner) (now : ℕ)
      → end_locked fmt club id t ws now s ≡ err (bad_request 7)

completed-IsOver :
    (club id : ℕ) (s : TournamentDb) (t : Tournament)
    → find? (is_tournament club id) s.tournaments ≡ some t
    → t.status ≡ TournamentStatus.completed
    → IsOver club id s
unfolding get_tournament start_tournament pause_tournament resume_tournament stop_tournament
    increase_blind end_locked is_active is_finished
completed-IsOver club id s t h done = record {
  no_start = λ now. rw (h, done) refl;
  no_pause = λ now. rw (h, done) refl;
  no_resume = λ now. rw (h, done) refl;
  no_stop = λ now. rw (h, done) refl;
  no_blinds = λ blinds now. rw (h, done) refl;
  no_end = λ fmt u ws now. rw (h, done) refl;
}

abbrev closed : ℕ → Tournament → Tournament
closed now t = record t { status = TournamentStatus.completed; paused_at = none; updated_at = now }

-- A tournament that staff have stopped is over: starting, pausing, resuming, stopping, raising the
-- blinds and the transaction of an ending that passed its checks before are all refused.
pub stop_tournament-IsOver :
    (club id now : ℕ) (s : TournamentDb) {s' : TournamentDb}
    → stop_tournament club id now s ≡ ok s'
    → IsOver club id s'
unfolding stop_tournament get_tournament is_tournament set_entrants
stop_tournament-IsOver club id now s {s'} h =
    let (t, ht, h1) =
      or_throw-eq-ok (find? (is_tournament club id) s.tournaments) (not_found 0) _ h in
    let (_, h2) = throw_if-eq-ok (not (is_active t.status)) (bad_request 0) _ h1 in
    let mine = find?-sound (is_tournament club id) s.tournaments ht in
    rw (← ok-injective _ s' h2) (
      completed-IsOver club id _ (closed now t)
        (set_tournament-found club id (closed now) s mine ht) refl)

end_locked-Ends :
    (fmt : NumberFormat) (club id : ℕ) (t : Tournament) (ws : List Winner) (now : ℕ)
    (s : TournamentDb) {s' : TournamentDb}
    → All HasNoDebt ws
    → end_locked fmt club id t ws now s ≡ ok s'
    → Pays club ws s.floor s'.floor × IsOver club id s'
unfolding end_locked get_tournament set_entrants set_tournament is_tournament
end_locked-Ends fmt club id t ws now s {s'} least h =
    let (u, hu, h1) =
      or_throw-eq-ok (find? (is_tournament club id) s.tournaments) (not_found 0) _ h in
    let (_, h2) = throw_if-eq-ok (not (is_active u.status)) (bad_request 7) _ h1 in
    let mine = find?-sound (is_tournament club id) s.tournaments hu in
    rw (← ok-injective _ s' h2) (
      award_all-Pays fmt club id t now ws (set_tournament club id (closed now) s) least,
      completed-IsOver club id _ (closed now u)
          (rw award_all-tournaments (set_tournament-found club id (closed now) s mine hu)) refl,
    )

check_end-winners :
    (club id : ℕ) (raw : List RawWinner) (s : TournamentDb) {c : Tournament × List Winner}
    → check_end club id raw s ≡ ok c
    → (check_winners raw ≡ ok c.1) × (has_duplicates (winner_ids c.1) ≡ false)
unfolding check_end get_tournament
check_end-winners club id raw s {c} h =
    let (t, ht, c1) =
      or_throw-eq-ok (find? (is_tournament club id) s.tournaments) (not_found 0) _ h in
    let (_, c2) = throw_if-eq-ok (no_winners raw) (bad_request 0) _ c1 in
    let (ws, hw, c3) = >>=-eq-ok (check_winners raw) _ c2 in
    let (unique, c4) = throw_if-eq-ok (has_duplicates (winner_ids ws)) (bad_request 4) _ c3 in
    let (_, c5) = throw_if-eq-ok (has_duplicates (winner_positions ws)) (bad_request 5) _ c4 in
    let (_, c6) =
      throw_if-eq-ok (misses_participant id s.tournament_players ws) (bad_request 6) _ c5 in
    let (_, c7) = throw_if-eq-ok (not (is_active t.status)) (bad_request 7) _ c6 in
    rw (← ok-injective _ c c7) (hw, unique)

-- An ending that succeeds has winners that pass the checks, with no player among them twice. It adds
-- to the wallet of each player of the club exactly the prizes of that player, leaves all credit and
-- chips and the wallets in other clubs, and leaves the tournament over: starting, pausing, resuming,
-- stopping, raising the blinds and a second ending that passed its checks before are all refused.
pub end_tournament-Pays :
    (fmt : NumberFormat) (club id : ℕ) (raw : List RawWinner) (now : ℕ) (s : TournamentDb)
    {s' : TournamentDb}
    → end_tournament fmt club id raw now s ≡ ok s'
    → (ws : List Winner) × (check_winners raw ≡ ok ws)
      × (has_duplicates (winner_ids ws) ≡ false)
      × Pays club ws s.floor s'.floor
      × IsOver club id s'
unfolding end_tournament
end_tournament-Pays fmt club id raw now s {s'} h =
    let (c, hc, ended) = >>=-eq-ok (check_end club id raw s) _ h in
    let (hw, unique) = check_end-winners club id raw s hc in
    let (pays, over) =
      end_locked-Ends fmt club id c.0 c.1 now s (check_winners-HasNoDebt raw hw) ended in
    (c.1, hw, unique, pays, over)
