-- ===== src/Tournaments/Play.antt =====
-- endTournament of src/clubs/services/tournaments.service.ts.
use poker_crm_backend.Base.{
  ℕ, Bool, true, false, not, Option, none, some, List, [], ◌∷◌, ◌++◌, ◌||◌, ◌==◌, if◌then◌else◌,
  is_some, map,
}
use poker_crm_backend.Base.Int.{ℤ, pos, ltb_ℤ}
use poker_crm_backend.Base.Result.{Result, ok, bad_request, ◌>>=◌, ◌>>◌, throw_if, or_throw}
use poker_crm_backend.Base.Text.{Text, codes, is_empty}
use poker_crm_backend.Base.Rows.{find?}
use poker_crm_backend.Entities.{Db, Player, TransactionType, GameType, completed_row, post}
use poker_crm_backend.Floor.Format.{NumberFormat}
use poker_crm_backend.Floor.Seating.Assign.{is_player}
use poker_crm_backend.Tournaments.{Tournament, TournamentStatus, is_active}
use poker_crm_backend.Tournaments.State.{
  TournamentPlayer, TournamentDb, get_tournament, set_tournament, set_entrants, is_entrant,
  new_entrant, upsert_entrant,
}

-- A winner of the request, trimmed and read as numbers: `none` is a blank id, a position that is no
-- whole number above 0, and a prize that is no number from 0 up.
pub record RawWinner : Type 0 where
  pub player_id : Option ℕ
  pub finishing_position : Option ℕ
  pub prize_amount : Option ℤ

pub record Winner : Type 0 where
  pub player_id : ℕ
  pub finishing_position : ℕ
  pub prize_amount : ℤ

unfoldable pub check_winner : RawWinner → Result Winner
check_winner w = do
  player ← or_throw w.player_id (bad_request 1)
  position ← or_throw w.finishing_position (bad_request 2)
  throw_if (position == 0) (bad_request 2)
  prize ← or_throw w.prize_amount (bad_request 3)
  throw_if (ltb_ℤ prize (pos 0)) (bad_request 3)
  ok record { player_id = player; finishing_position = position; prize_amount = prize }

unfoldable pub check_winners : List RawWinner → Result (List Winner)
check_winners [] = ok []
check_winners (w ∷ ws) = do winner ← check_winner w; rest ← check_winners ws; ok (winner ∷ rest)

unfoldable pub occurs : ℕ → List ℕ → Bool
occurs n [] = false
occurs n (m ∷ ms) = n == m || occurs n ms

-- `new Set(xs).size !== xs.length`
unfoldable pub has_duplicates : List ℕ → Bool
has_duplicates [] = false
has_duplicates (n ∷ ns) = occurs n ns || has_duplicates ns

abbrev pub winner_ids : List Winner → List ℕ
winner_ids ws = map (λ (w : Winner). w.player_id) ws

abbrev pub winner_positions : List Winner → List ℕ
winner_positions ws = map (λ (w : Winner). w.finishing_position) ws

-- Some winner has no row among the players of the tournament.
unfoldable pub misses_participant : ℕ → List TournamentPlayer → List Winner → Bool
misses_participant tournament rows [] = false
misses_participant tournament rows (w ∷ ws) =
    not (is_some (find? (is_entrant tournament w.player_id) rows))
    || misses_participant tournament rows ws

-- `rawWinners.length === 0`
unfoldable pub no_winners : List RawWinner → Bool
no_winners [] = true
no_winners (_ ∷ _) = false

-- The checks of endTournament before its transaction.
unfoldable pub check_end : ℕ → ℕ → List RawWinner → TournamentDb → Result (Tournament × List Winner)
check_end club id raw s = do
  t ← get_tournament club id s
  throw_if (no_winners raw) (bad_request 0)
  winners ← check_winners raw
  throw_if (has_duplicates (winner_ids winners)) (bad_request 4)
  throw_if (has_duplicates (winner_positions winners)) (bad_request 5)
  throw_if (misses_participant id s.tournament_players winners) (bad_request 6)
  throw_if (not (is_active t.status)) (bad_request 7)
  ok (t, winners)

abbrev pub game_type_of : Tournament → GameType
game_type_of t = if t.is_rummy then GameType.rummy else GameType.poker

abbrev pub game_label : Tournament → Text
game_label t = if t.is_rummy then codes "Rummy" else codes "Poker"

-- `toLocaleString` is the runtime's, as the other printed numbers.
unfoldable pub prize_note : NumberFormat → Tournament → Winner → Text
prize_note fmt t w =
    game_label t
    ++ (codes " Tournament Prize - "
        ++ (t.name
            ++ (codes " - Position #"
                ++ (fmt.int_text w.finishing_position
                    ++ (codes " (₹" ++ (fmt.amount_text w.prize_amount ++ codes ")"))))))

unfoldable pub name_or_unknown : Option Player → Text
name_or_unknown none = codes "Unknown Player"
name_or_unknown (some p) = if is_empty p.name then codes "Unknown Player" else p.name

unfoldable pub post_prize : NumberFormat → ℕ → Tournament → ℕ → Winner → Db → Db
post_prize fmt club t now w db =
    if ltb_ℤ (pos 0) w.prize_amount
    then post
        (completed_row club w.player_id
          (name_or_unknown (find? (is_player club w.player_id) db.players)) w.prize_amount
          TransactionType.tournament_win (game_type_of t) (prize_note fmt t w) now)
        db
    else db

unfoldable pub earliest : Option ℕ → ℕ → Option ℕ
earliest none now = some now
earliest (some at) now = some at

-- The rows of one winner: the finish, and the prize where there is one.
unfoldable pub award : NumberFormat → ℕ → ℕ → Tournament → ℕ → Winner → TournamentDb → TournamentDb
award fmt club id t now w s = record s {
  tournament_players =
      upsert_entrant
        record (new_entrant id w.player_id none (pos 0)) {
          is_active = false;
          finishing_position = some w.finishing_position;
          prize_amount = w.prize_amount;
        }
        (λ (p : TournamentPlayer). record p {
          finishing_position = some w.finishing_position;
          prize_amount = w.prize_amount;
          is_active = false;
          session_started_at = none;
          exited_at = earliest p.exited_at now;
          is_exited = true;
        })
        s.tournament_players;
  floor = post_prize fmt club t now w s.floor;
}

unfoldable pub award_all :
    NumberFormat → ℕ → ℕ → Tournament → ℕ → List Winner → TournamentDb → TournamentDb
award_all fmt club id t now [] s = s
award_all fmt club id t now (w ∷ ws) s =
    award_all fmt club id t now ws (award fmt club id t now w s)

-- The transaction of endTournament, from the lock of the row on: `t` and `winners` are what the
-- checks read before, and the state may have changed since.
unfoldable pub end_locked :
    NumberFormat → ℕ → ℕ → Tournament → List Winner → ℕ → TournamentDb → Result TournamentDb
end_locked fmt club id t winners now s = do
  locked ← get_tournament club id s
  throw_if (not (is_active locked.status)) (bad_request 7)
  let s1 =
      set_tournament club id
        (λ (o : Tournament). record o {
          status = TournamentStatus.completed;
          paused_at = none;
          updated_at = now;
        })
        s
  let s2 = award_all fmt club id t now winners s1
  ok (
      set_entrants (λ (p : TournamentPlayer). p.tournament_id == id)
        (λ (p : TournamentPlayer). record p {
          is_active = false;
          session_started_at = none;
          is_exited = true;
          exited_at = earliest p.exited_at now;
        })
        s2)

-- endTournament
unfoldable pub end_tournament :
    NumberFormat → ℕ → ℕ → List RawWinner → ℕ → TournamentDb → Result TournamentDb
end_tournament fmt club id raw now s = do
  checked ← check_end club id raw s
  end_locked fmt club id checked.0 checked.1 now s
