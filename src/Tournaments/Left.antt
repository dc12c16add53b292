-- ===== src/Tournaments/Left.antt =====
-- exitTournamentPlayer of src/clubs/services/tournaments.service.ts as a whole.
use poker_crm_backend.Base.{
  ℕ, ◌≤◌, ◌≡◌, refl, sym, ap, ◌∙◌, arith, true, false, not, Option, some, List, ◌&&◌, ◌==◌, is_some,
  Bool-cases, inl, inr,
}
use poker_crm_backend.Base.Int.{ℤ}
use poker_crm_backend.Base.Result.{
  ok, bad_request, not_found, throw_if-eq-ok, or_throw-eq-ok, >>=-eq-ok, ok-injective,
}
use poker_crm_backend.Base.Rows.{find?, find?-sound}
use poker_crm_backend.Base.Text.{Text}
use poker_crm_backend.Entities.{Db, Player, Transaction}
use poker_crm_backend.Ledger.{is_repayment}
use poker_crm_backend.Tournaments.{Tournament, is_active}
use poker_crm_backend.Tournaments.State.{
  TournamentDb, TournamentPlayer, get_tournament, set_entrants, is_entrant,
}
use poker_crm_backend.Tournaments.Exit.{
  entered, enrol, has_id, is_registration, exit_debit_note, final_wallet, exit_tournament_player,
}
use poker_crm_backend.Tournaments.Exited.{
  LeavesWith, adjust_wallet-StandsAt, settle_from-LeavesWith,
}

entered-same :
    (t : Tournament) (id player now : ℕ) (s : TournamentDb)
    {r : Player × TournamentPlayer × TournamentDb}
    → entered t id player now s ≡ ok r
    → (r.0.id ≡ player) × (r.2.floor ≡ s.floor)
unfolding entered has_id enrol
entered-same t id player now s {r} h =
    let (p, hp, h1) = or_throw-eq-ok (find? (has_id player) s.floor.players) (not_found 1) _ h in
    let (_, h2) =
      throw_if-eq-ok
        (not (is_some (find? (is_entrant id player) s.tournament_players))
          && not (is_some (find? (is_registration id player) s.registrations)))
        (not_found 1) _ h1 in
    let (e, he, h3) =
      or_throw-eq-ok (find? (is_entrant id player) (enrol t id player now s).tournament_players)
        (not_found 1) _ h2 in
    let same : (p.id == player) ≡ true = find?-sound (has_id player) s.floor.players hp in
    rw (← ok-injective _ r h3) (
      ground arith,
      elim (Bool-cases (is_some (find? (is_entrant id player) s.tournament_players))) [
        | inl b ↦ rw b refl
        | inr b ↦ rw b refl
      ],
    )

LeavesWith-same :
    {club player player' since : ℕ} {balance : ℤ} {ts ts' us : List Transaction}
    → player ≡ player'
    → ts ≡ ts'
    → LeavesWith club player since balance ts us
    → LeavesWith club player' since balance ts' us
LeavesWith-same e e' leaves = rw (← e, ← e') leaves

-- An exit that succeeds leaves the wallet at the requested final amount (at least 0) less a payment
-- for credit, the smaller of that amount and the credit that the player owes; the credit drawn falls
-- by the payment, and chips and every other account stay. It is a condition that the tournament's
-- name does not turn the note of the payment into that of a credit line repayment.
pub exit_tournament_player-LeavesWith :
    (club id since player : ℕ) (balance : ℤ) (notes : Option Text) (now : ℕ) (s : TournamentDb)
    (t : Tournament) {s' : TournamentDb}
    → since ≤ now
    → get_tournament club id s ≡ ok t
    → is_repayment (some (exit_debit_note t)) ≡ false
    → exit_tournament_player club id player balance notes now s ≡ ok s'
    → LeavesWith club player since balance s.floor.ledger s'.floor.ledger
unfolding exit_tournament_player set_entrants
exit_tournament_player-LeavesWith club id since player balance notes now s t {s'} late ht counts h =
    let (u, hu, h1) = >>=-eq-ok (get_tournament club id s) _ h in
    let same : u ≡ t = ok-injective u t (sym hu ∙ ht) in
    let (_, h2) = throw_if-eq-ok (not (is_active u.status)) (bad_request 0) _ h1 in
    let (f, hf, h3) = >>=-eq-ok (entered u id player now s) _ h2 in
    let (_, h4) = throw_if-eq-ok f.1.is_exited (bad_request 2) _ h3 in
    let (me, floor) = entered-same u id player now s hf in
    let counts' : is_repayment (some (exit_debit_note u)) ≡ false = rw same counts in
    let stands =
      adjust_wallet-StandsAt u club since f.0 (final_wallet balance) notes now f.2.floor late in
    rw (← ok-injective _ s' h4) (
      LeavesWith-same me (ap (λ (db : Db). db.ledger) floor) (
        settle_from-LeavesWith u club since f.0 balance now _ f.2.floor.ledger late stands counts'))
