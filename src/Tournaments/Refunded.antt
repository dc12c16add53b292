-- ===== src/Tournaments/Refunded.antt =====
-- What cancelRegistration of src/player-tournaments/player-tournaments.service.ts pays.
use poker_crm_backend.Tournaments.Cancelled.{is_registered, refund_amount, cancel_registration}
use poker_crm_backend.Base.{
  Bool, Option-cases, ℕ, ◌≤◌, ◌≡◌, refl, ◌∙◌, none, some, List, ◌∷◌, if◌then◌else◌, [], Bool-cases,
  inl, inr,
}
use poker_crm_backend.Base.Int.{ℤ, pos, ◌+ℤ◌, ltb_ℤ, max_ℤ, int_laws, bound_laws, ltb_ℤ_cases}
use poker_crm_backend.Base.Result.{ok, err, not_found, or_throw-eq-ok, ok-injective}
use poker_crm_backend.Base.Rows.{find?, delete_where}
use poker_crm_backend.Entities.{Db, TransactionType, GameType, completed_row, post}
use poker_crm_backend.Base.Text.{Text}
use poker_crm_backend.Ledger.{
  wallet_balance, credit_balance, session_chips, wallet_case, credit_case, chips_case,
}
use poker_crm_backend.Ledger.Balances.{
  wallet_balance_row, credit_balance_row, session_chips_row, KeepsOthers, KeepsOthers-refl,
  KeepsOthers-row,
}
use poker_crm_backend.Floor.Format.{NumberFormat}
use poker_crm_backend.Floor.Seating.Assign.{is_player}
use poker_crm_backend.Tournaments.{Tournament}
use poker_crm_backend.Tournaments.State.{TournamentDb, Registration, is_tournament}

-- The wallet of a player grows by an amount, and nothing else of the balances changes.
pub record Gives (club player since : ℕ) (a : ℤ) (db db' : Db) : Type 0 where
  pub wallet : wallet_balance club player db'.ledger ≡ wallet_balance club player db.ledger +ℤ a
  pub credit : credit_balance club player db'.ledger ≡ credit_balance club player db.ledger
  pub chips : session_chips club player since db'.ledger ≡ session_chips club player since db.ledger
  pub keeps_others : KeepsOthers club player db.ledger db'.ledger

refund-Gives :
    (club player since : ℕ) (name : Text) (a : ℤ) (game : GameType) (note : Text) (now : ℕ)
    (db : Db)
    → since ≤ now
    → Gives club player since (max_ℤ (pos 0) a) db (
        if ltb_ℤ (pos 0) a
        then post (completed_row club player name a TransactionType.refund game note now) db
        else db)
unfolding wallet_case credit_case chips_case
refund-Gives club player since name a game note now db late = elim (ltb_ℤ_cases (pos 0) a) [
  | inl (e, gt) ↦ rw e record {
    wallet = wallet_balance_row _ _ _ _ _ _ _ _ _ db.ledger ∙ omega bound_laws;
    credit = credit_balance_row _ _ _ _ _ _ _ _ _ db.ledger ∙ omega int_laws;
    chips = session_chips_row _ _ _ _ _ _ _ _ _ db.ledger since late ∙ omega int_laws;
    keeps_others = KeepsOthers-row db.ledger db.ledger (KeepsOthers-refl db.ledger);
  }
  | inr (e, le) ↦ rw e record {
    wallet = omega bound_laws;
    credit = refl;
    chips = refl;
    keeps_others = KeepsOthers-refl db.ledger;
  }
]

find?-delete_where :
    (p : Registration → Bool) (rows : List Registration) → find? p (delete_where p rows) ≡ none
unfolding find? delete_where
find?-delete_where p [] = refl
find?-delete_where p (r ∷ rs) = elim (Bool-cases (p r)) [
  | inl e ↦ rw e (find?-delete_where p rs)
  | inr e ↦ rw (e, e) (find?-delete_where p rs)
]

Gives-amount :
    {club player since : ℕ} {a b : ℤ} {db db' : Db}
    → a ≡ b
    → Gives club player since a db db'
    → Gives club player since b db db'
Gives-amount e gives = rw (← e) gives

cancel_registration-absent :
    (fmt : NumberFormat) (club id player now : ℕ) (s : TournamentDb)
    → find? (is_registered club id player) s.registrations ≡ none
    → (n : ℕ) × (cancel_registration fmt club id player now s ≡ err (not_found n))
unfolding cancel_registration
cancel_registration-absent fmt club id player now s h =
    elim (Option-cases (find? (is_player club player) s.floor.players)) [
      | inl e ↦ (0, rw e refl)
      | inr (p, e) ↦ (1, rw (e, h) refl)
    ]

-- A cancelled registration gives the player the buy-in of the tournament, or nothing where it is not
-- above 0, whatever the status of the tournament, the kind of the game and what the player paid to
-- register; credit, chips and all other accounts stay, and so do the players of the tournament, the
-- player among them. A second cancellation finds no registration.
pub cancel_registration-Gives :
    (fmt : NumberFormat) (club id player since : ℕ) (now : ℕ) (s : TournamentDb) (t : Tournament)
    {s' : TournamentDb}
    → since ≤ now
    → find? (is_tournament club id) s.tournaments ≡ some t
    → cancel_registration fmt club id player now s ≡ ok s'
    → Gives club player since (max_ℤ (pos 0) t.buy_in) s.floor s'.floor
      × (s'.tournament_players ≡ s.tournament_players)
      × ((now' : ℕ)
          → (n : ℕ) × (cancel_registration fmt club id player now' s' ≡ err (not_found n)))
unfolding cancel_registration
cancel_registration-Gives fmt club id player since now s t {s'} late found h =
    let (p, hp, h1) =
      or_throw-eq-ok (find? (is_player club player) s.floor.players) (not_found 0) _ h in
    let (r, _, h2) =
      or_throw-eq-ok (find? (is_registered club id player) s.registrations) (not_found 1) _ h1 in
    let amount : max_ℤ (pos 0) (refund_amount (find? (is_tournament club id) s.tournaments))
        ≡ max_ℤ (pos 0) t.buy_in =
      (rw found (unfold refund_amount in refl)) in
    rw (← ok-injective _ s' h2) (
      Gives-amount amount (refund-Gives club player since _ _ _ _ now s.floor late),
      refl,
      λ now'.
          unfold cancel_registration in
          cancel_registration-absent fmt club id player now' _
            (find?-delete_where _ s.registrations),
    )
