-- ===== src/Examples/Play.antt =====
-- The money of the tournament of Examples/Tournament: prizes, an exit and a cancelled registration.
use poker_crm_backend.Base.{ℕ, ◌∷◌}
use poker_crm_backend.Base.{◌≡◌, refl, true, false, none, some, List, [], ◌∷◌, arith}
use poker_crm_backend.Base.Int.{max_ℤ, pos}
use poker_crm_backend.Base.Result.{Result, ok, err, not_found}
use poker_crm_backend.Base.Rows.{find?}
use poker_crm_backend.Tournaments.{is_active}
use poker_crm_backend.Tournaments.State.{TournamentDb, get_tournament, is_tournament, is_entrant}
use poker_crm_backend.Tournaments.Play.{
  RawWinner, Winner, check_winner, check_winners, check_end, end_tournament, end_locked,
  has_duplicates, winner_ids, occurs, misses_participant, no_winners,
}
use poker_crm_backend.Tournaments.Ended.{Pays}
use poker_crm_backend.Tournaments.Over.{IsOver, end_tournament-Pays}
use poker_crm_backend.Tournaments.Exit.{
  exit_tournament_player, entered, enrol, has_id, exit_debit_note,
}
use poker_crm_backend.Tournaments.Exited.{LeavesWith}
use poker_crm_backend.Tournaments.Cancelled.{cancel_registration, is_registered}
use poker_crm_backend.Tournaments.Refunded.{Gives, cancel_registration-Gives}
use poker_crm_backend.Floor.Seating.Assign.{is_player}
use poker_crm_backend.Tournaments.Left.{exit_tournament_player-LeavesWith}
use poker_crm_backend.Ledger.{is_repayment}
use poker_crm_backend.Base.Text.{contains, starts_with, lower, lower_code}
use poker_crm_backend.Examples.{one_digit, succeeds, value, value-ok}
use poker_crm_backend.Examples.Tournament.{friday, friday_db}

abbrev winners : List RawWinner
winners =
    record { player_id = some 8; finishing_position = some 1; prize_amount = some (pos 900) }
    ∷ (record { player_id = some 7; finishing_position = some 2; prize_amount = some (pos 0) } ∷ [])

abbrev ending : Result TournamentDb
ending = end_tournament one_digit 1 60 winners 9_000_000 friday_db

ending_succeeds : succeeds ending ≡ true
unfolding end_tournament end_locked check_end check_winners check_winner get_tournament
    is_tournament find? is_active is_entrant no_winners has_duplicates occurs misses_participant
ending_succeeds = refl

end_tournament-Pays_example :
    (ws : List Winner) × (check_winners winners ≡ ok ws)
    × (has_duplicates (winner_ids ws) ≡ false)
    × Pays 1 ws friday_db.floor (value ending ending_succeeds).floor
    × IsOver 1 60 (value ending ending_succeeds)
end_tournament-Pays_example =
    end_tournament-Pays one_digit 1 60 winners 9_000_000 friday_db (value-ok ending ending_succeeds)

-- Bala, who owes 400, leaves with 1000.
abbrev leaving : Result TournamentDb
leaving = exit_tournament_player 1 60 8 (pos 1000) none 5_000_000 friday_db

leaving_succeeds : succeeds leaving ≡ true
unfolding exit_tournament_player entered enrol has_id get_tournament is_tournament find? is_active
    is_entrant
leaving_succeeds = refl

friday_found : get_tournament 1 60 friday_db ≡ ok friday
unfolding get_tournament is_tournament find?
friday_found = refl

friday_counts : is_repayment (some (exit_debit_note friday)) ≡ false
unfolding is_repayment exit_debit_note contains starts_with lower lower_code
friday_counts = refl

exit_tournament_player-LeavesWith_example :
    LeavesWith 1 8 0 (pos 1000) friday_db.floor.ledger (value leaving leaving_succeeds).floor.ledger
exit_tournament_player-LeavesWith_example =
    exit_tournament_player-LeavesWith 1 60 0 8 (pos 1000) none 5_000_000 friday_db friday
      (omega arith) friday_found friday_counts (value-ok leaving leaving_succeeds)

-- Asha, who plays, cancels the registration.
abbrev withdrawal : Result TournamentDb
withdrawal = cancel_registration one_digit 1 60 7 4_000_000 friday_db

withdrawal_works : succeeds withdrawal ≡ true
unfolding cancel_registration is_registered is_player find?
withdrawal_works = refl

friday_row : find? (is_tournament 1 60) friday_db.tournaments ≡ some friday
unfolding is_tournament find?
friday_row = refl

cancel_registration-Gives_example :
    Gives 1 7 0 (max_ℤ (pos 0) (pos 200)) friday_db.floor (value withdrawal withdrawal_works).floor
    × ((value withdrawal withdrawal_works).tournament_players ≡ friday_db.tournament_players)
    × ((now' : ℕ)
        → (n : ℕ) × (cancel_registration one_digit 1 60 7 now' (value withdrawal withdrawal_works)
            ≡ err (not_found n)))
cancel_registration-Gives_example =
    cancel_registration-Gives one_digit 1 60 7 0 4_000_000 friday_db friday (omega arith) friday_row
      (value-ok withdrawal withdrawal_works)
