-- ===== src/Tournaments/State.antt =====
-- The tables that src/clubs/services/tournaments.service.ts reads and writes, and the changes of a
-- tournament's status. The timers of the blind clock are not part of the state: their callback
-- changes no table.
use poker_crm_backend.Base.{
  ℕ, ◌+◌, ◌-◌, ◌/◌, Bool, true, false, not, Option, none, some, List, [], ◌∷◌, ◌&&◌, ◌==◌,
  if◌then◌else◌, is_some,
}
use poker_crm_backend.Base.Int.{ℤ, pos, ◌+ℤ◌}
use poker_crm_backend.Base.Result.{
  Result, ok, bad_request, not_found, ◌>>=◌, ◌>>◌, throw_if, or_throw,
}
use poker_crm_backend.Base.Rows.{find?, update_where}
use poker_crm_backend.Entities.{Db}
use poker_crm_backend.Tournaments.{
  Tournament, TournamentStatus, BlindStructure, is_active, is_finished,
}

pub record TournamentPlayer : Type 0 where
  pub tournament_id : ℕ
  pub player_id : ℕ
  pub is_active : Bool
  pub is_exited : Bool
  pub session_started_at : Option ℕ
  pub exited_at : Option ℕ
  pub exit_balance : ℤ
  pub total_invested : ℤ
  pub rebuy_count : ℕ
  pub addon_count : ℕ
  pub finishing_position : Option ℕ
  pub prize_amount : ℤ

-- A row of tournament_registrations with the status `registered`.
pub record Registration : Type 0 where
  pub club_id : ℕ
  pub tournament_id : ℕ
  pub player_id : ℕ

pub record TournamentDb : Type 0 where
  pub tournaments : List Tournament
  pub tournament_players : List TournamentPlayer
  pub registrations : List Registration
  pub floor : Db

unfoldable pub is_tournament : ℕ → ℕ → Tournament → Bool
is_tournament club id t = t.id == id && t.club_id == club

-- getTournamentById
unfoldable pub get_tournament : ℕ → ℕ → TournamentDb → Result Tournament
get_tournament club id s = or_throw (find? (is_tournament club id) s.tournaments) (not_found 0)

unfoldable pub set_tournament : ℕ → ℕ → (Tournament → Tournament) → TournamentDb → TournamentDb
set_tournament club id f s = record s {
  tournaments = update_where (is_tournament club id) f s.tournaments;
}

unfoldable pub is_entrant : ℕ → ℕ → TournamentPlayer → Bool
is_entrant tournament player p = p.tournament_id == tournament && p.player_id == player

unfoldable pub set_entrants :
    (TournamentPlayer → Bool) → (TournamentPlayer → TournamentPlayer) → TournamentDb → TournamentDb
set_entrants p f s = record s { tournament_players = update_where p f s.tournament_players }

-- The row of tournament_players that an INSERT gives, with the defaults of the columns.
abbrev pub new_entrant : ℕ → ℕ → Option ℕ → ℤ → TournamentPlayer
new_entrant tournament player started invested = record {
  tournament_id = tournament;
  player_id = player;
  is_active = true;
  is_exited = false;
  session_started_at = started;
  exited_at = none;
  exit_balance = pos 0;
  total_invested = invested;
  rebuy_count = 0;
  addon_count = 0;
  finishing_position = none;
  prize_amount = pos 0;
}

-- `INSERT … ON CONFLICT (tournament_id, player_id) DO UPDATE`
unfoldable pub upsert_entrant :
    TournamentPlayer
    → (TournamentPlayer → TournamentPlayer)
    → List TournamentPlayer
    → List TournamentPlayer
upsert_entrant row update rows =
    if is_some (find? (is_entrant row.tournament_id row.player_id) rows)
    then update_where (is_entrant row.tournament_id row.player_id) update rows
    else row ∷ rows

-- The copy of the registrations of a tournament into its players.
unfoldable pub enter_registered :
    ℕ → ℤ → ℕ → List Registration → List TournamentPlayer → List TournamentPlayer
enter_registered tournament buy_in now [] rows = rows
enter_registered tournament buy_in now (r ∷ rs) rows =
    let rows' =
      if r.tournament_id == tournament
      then upsert_entrant (new_entrant tournament r.player_id (some now) buy_in)
          (λ (p : TournamentPlayer). record p {
            session_started_at = some now;
            is_active = true;
            is_exited = false;
            total_invested = p.total_invested +ℤ buy_in;
          })
          rows
      else rows in
    enter_registered tournament buy_in now rs rows'

-- `current ?? d`
unfoldable pub or_else : Option ℕ → ℕ → ℕ
or_else none d = d
or_else (some n) d = n

unfoldable pub started_structure : BlindStructure → BlindStructure
started_structure s = record s {
  current_round = some 1;
  current_sb = some (or_else s.starting_sb 25);
  current_bb = some (or_else s.starting_bb 50);
}

-- startTournament
unfoldable pub start_tournament : ℕ → ℕ → ℕ → TournamentDb → Result TournamentDb
start_tournament club id now s = do
  t ← get_tournament club id s
  throw_if (is_active t.status) (bad_request 0)
  throw_if (is_finished t.status) (bad_request 1)
  let s1 =
      set_tournament club id
        (λ (o : Tournament). record o {
          status = TournamentStatus.active;
          session_started_at = some now;
          structure = started_structure t.structure;
          updated_at = now;
        })
        s
  let s2 =
      set_entrants (λ (p : TournamentPlayer). p.tournament_id == id)
        (λ (p : TournamentPlayer). record p { session_started_at = some now; is_exited = false }) s1
  ok record s2 {
    tournament_players = enter_registered id t.buy_in now s2.registrations s2.tournament_players;
  }

-- pauseTournament
unfoldable pub pause_tournament : ℕ → ℕ → ℕ → TournamentDb → Result TournamentDb
pause_tournament club id now s = do
  t ← get_tournament club id s
  throw_if (not (is_active t.status)) (bad_request 0)
  throw_if (is_some t.paused_at) (bad_request 1)
  ok (
      set_tournament club id
        (λ (o : Tournament). record o { paused_at = some now; updated_at = now }) s)

-- resumeTournament. The clock does not run backwards: `now` is not before the pause.
unfoldable pub resume_tournament : ℕ → ℕ → ℕ → TournamentDb → Result TournamentDb
resume_tournament club id now s = do
  t ← get_tournament club id s
  throw_if (not (is_active t.status)) (bad_request 0)
  paused ← or_throw t.paused_at (bad_request 1)
  ok (
      set_tournament club id
        (λ (o : Tournament). record o {
          paused_at = none;
          total_paused_seconds = t.total_paused_seconds + (now - paused) / 1000;
          updated_at = now;
        })
        s)

-- stopTournament
unfoldable pub stop_tournament : ℕ → ℕ → ℕ → TournamentDb → Result TournamentDb
stop_tournament club id now s = do
  t ← get_tournament club id s
  throw_if (not (is_active t.status)) (bad_request 0)
  let s1 =
      set_tournament club id
        (λ (o : Tournament). record o {
          status = TournamentStatus.completed;
          paused_at = none;
          updated_at = now;
        })
        s
  ok (
      set_entrants (λ (p : TournamentPlayer). p.tournament_id == id && p.is_active)
        (λ (p : TournamentPlayer). record p { is_active = false }) s1)

-- increaseBlind: the body's blinds are numbers from 0 up, or the request is refused.
unfoldable pub increase_blind : ℕ → ℕ → Option (ℕ × ℕ) → ℕ → TournamentDb → Result TournamentDb
increase_blind club id body now s = do
  t ← get_tournament club id s
  throw_if (not (is_active t.status)) (bad_request 0)
  blinds ← or_throw body (bad_request 1)
  let structure = record t.structure {
    current_round = some (or_else t.structure.current_round 0 + 1);
    current_sb = some blinds.0;
    current_bb = some blinds.1;
  }
  ok (
      set_tournament club id
        (λ (o : Tournament). record o { structure = structure; updated_at = now }) s)
