-- ===== src/Tournaments/Cancelled.antt =====
-- cancelRegistration of src/player-tournaments/player-tournaments.service.ts. An id is printed into
-- the note as its number.
use poker_crm_backend.Base.{ℕ, ◌-◌, Bool, Option, none, some, ◌++◌, ◌&&◌, ◌==◌, if◌then◌else◌}
use poker_crm_backend.Base.Int.{ℤ, pos, ltb_ℤ}
use poker_crm_backend.Base.Result.{Result, ok, not_found, ◌>>=◌, or_throw}
use poker_crm_backend.Base.Text.{Text, codes}
use poker_crm_backend.Base.Rows.{find?, update_where, delete_where}
use poker_crm_backend.Entities.{TransactionType, GameType, completed_row, post}
use poker_crm_backend.Floor.Format.{NumberFormat}
use poker_crm_backend.Floor.Seating.Assign.{is_player}
use poker_crm_backend.Tournaments.{Tournament}
use poker_crm_backend.Tournaments.State.{TournamentDb, Registration, is_tournament}
use poker_crm_backend.Tournaments.Play.{game_type_of, game_label, name_or_unknown}

unfoldable pub is_registered : ℕ → ℕ → ℕ → Registration → Bool
is_registered club tournament player r =
    r.tournament_id == tournament && r.player_id == player && r.club_id == club

-- What the refund says of the tournament, which may be gone.
unfoldable pub refund_amount : Option Tournament → ℤ
refund_amount none = pos 0
refund_amount (some t) = t.buy_in

unfoldable pub refund_game : Option Tournament → GameType
refund_game none = GameType.poker
refund_game (some t) = game_type_of t

unfoldable pub refund_note : NumberFormat → ℕ → Option Tournament → Text
refund_note fmt id none =
    codes "Poker Tournament Registration Refund: Unknown Tournament (ID: "
    ++ (fmt.int_text id ++ codes ")")
refund_note fmt id (some t) =
    game_label t
    ++ (codes " Tournament Registration Refund: "
        ++ (t.name ++ (codes " (ID: " ++ (fmt.int_text id ++ codes ")"))))

-- cancelRegistration
unfoldable pub cancel_registration :
    NumberFormat → ℕ → ℕ → ℕ → ℕ → TournamentDb → Result TournamentDb
cancel_registration fmt club id player now s = do
  p ← or_throw (find? (is_player club player) s.floor.players) (not_found 0)
  _ ← or_throw (find? (is_registered club id player) s.registrations) (not_found 1)
  let t = find? (is_tournament club id) s.tournaments
  let row =
      completed_row club player (name_or_unknown (some p)) (refund_amount t) TransactionType.refund
        (refund_game t) (refund_note fmt id t) now
  ok record s {
    registrations = delete_where (is_registered club id player) s.registrations;
    tournaments =
        update_where (λ (o : Tournament). o.id == id)
          (λ (o : Tournament). record o {
            current_players = o.current_players - 1;
            updated_at = now;
          })
          s.tournaments;
    floor = if ltb_ℤ (pos 0) (refund_amount t) then post row s.floor else s.floor;
  }
