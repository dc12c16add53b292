-- ===== src/Tournaments/Ended.antt =====
-- What endTournament of src/clubs/services/tournaments.service.ts pays, and that it pays once.
use poker_crm_backend.Base.{
  ℕ, ◌≡◌, refl, ◌∙◌, arith, Bool, true, false, List, [], ◌∷◌, ◌&&◌, ◌==◌, if◌then◌else◌, Bool-cases,
  inl, inr, All,
}
use poker_crm_backend.Base.Int.{ℤ, pos, ◌+ℤ◌, ◌≤ℤ◌, ltb_ℤ, int_laws, not_ltb_ℤ, ltb_ℤ_cases}
use poker_crm_backend.Base.Result.{
  ok, bad_request, throw_if-eq-ok, or_throw-eq-ok, >>=-eq-ok, ok-injective,
}
use poker_crm_backend.Entities.{Db, TransactionType, completed_row}
use poker_crm_backend.Ledger.{
  wallet_balance, credit_balance, session_chips, wallet_case, credit_case, chips_case, wallet_delta,
  credit_delta, chips_delta, sum_rows, is_mine,
}
use poker_crm_backend.Floor.Format.{NumberFormat}
use poker_crm_backend.Tournaments.{Tournament}
use poker_crm_backend.Tournaments.State.{TournamentDb}
use poker_crm_backend.Tournaments.Play.{
  RawWinner, Winner, check_winner, check_winners, post_prize, award, award_all,
}
use poker_crm_backend.Base.Text.{Text}
use poker_crm_backend.Entities.Ledger.{Transaction, GameType}
use poker_crm_backend.Base.{leb}

-- The prizes of one player among the winners.
unfoldable pub prizes_of : ℕ → List Winner → ℤ
prizes_of player [] = pos 0
prizes_of player (w ∷ ws) =
    (if w.player_id == player then w.prize_amount else pos 0) +ℤ prizes_of player ws

abbrev pub HasNoDebt : Winner → Type 0
HasNoDebt w = pos 0 ≤ℤ w.prize_amount

-- The wallet of each player of the club grows by the player's prizes; credit and chips stay, and so
-- do the balances in every other club.
pub record Pays (club : ℕ) (ws : List Winner) (db db' : Db) : Type 0 where
  pub wallet :
      (player : ℕ)
      → wallet_balance club player db'.ledger
        ≡ wallet_balance club player db.ledger +ℤ prizes_of player ws
  pub credit :
      (club' player : ℕ)
      → credit_balance club' player db'.ledger ≡ credit_balance club' player db.ledger
  pub chips :
      (club' player since : ℕ)
      → session_chips club' player since db'.ledger ≡ session_chips club' player since db.ledger
  pub elsewhere :
      (club' player : ℕ)
      → (club == club') ≡ false
      → wallet_balance club' player db'.ledger ≡ wallet_balance club' player db.ledger

Pays-none : (club : ℕ) (db : Db) → Pays club [] db db
unfolding prizes_of
Pays-none club db = record {
  wallet = λ player. omega int_laws;
  credit = λ _ _. refl;
  chips = λ _ _ _. refl;
  elsewhere = λ _ _ _. refl;
}

module _ (club winner : ℕ) (name : Text) (a : ℤ) (game : GameType) (note : Text) (now id : ℕ)
    (ts : List Transaction) where
  abbrev prize_row : Transaction
  prize_row = completed_row club winner name a TransactionType.tournament_win game note now id

  wallet_balance-prize_row :
      (player : ℕ)
      → wallet_balance club player (prize_row ∷ ts)
        ≡ (if winner == player then a else pos 0) +ℤ wallet_balance club player ts
  unfolding wallet_balance sum_rows is_mine wallet_delta wallet_case
  wallet_balance-prize_row player = ground arith

  credit_balance-prize_row :
      (c player : ℕ) → credit_balance c player (prize_row ∷ ts) ≡ credit_balance c player ts
  unfolding credit_balance sum_rows credit_delta credit_case
  credit_balance-prize_row c player = elim (Bool-cases (is_mine c player prize_row)) [
    | inl e ↦ rw e (omega int_laws)
    | inr e ↦ rw e (omega int_laws)
  ]

  session_chips-prize_row :
      (c player since : ℕ)
      → session_chips c player since (prize_row ∷ ts) ≡ session_chips c player since ts
  unfolding session_chips sum_rows chips_delta chips_case
  session_chips-prize_row c player since =
      elim (Bool-cases (is_mine c player prize_row && leb since now)) [
        | inl e ↦ rw e (omega int_laws)
        | inr e ↦ rw e (omega int_laws)
      ]

  elsewhere-prize_row :
      (c player : ℕ)
      → (club == c) ≡ false
      → wallet_balance c player (prize_row ∷ ts) ≡ wallet_balance c player ts
  unfolding wallet_balance sum_rows is_mine
  elsewhere-prize_row c player h = rw h (omega int_laws)

if_zero : (b : Bool) (a : ℤ) → a ≤ℤ pos 0 → pos 0 ≤ℤ a → (if b then a else pos 0) ≡ pos 0
if_zero true a h h' = omega int_laws
if_zero false a h h' = refl

post_prize-Pays :
    (fmt : NumberFormat) (club : ℕ) (t : Tournament) (now : ℕ) (w : Winner) (db : Db)
    → HasNoDebt w
    → Pays club (w ∷ []) db (post_prize fmt club t now w db)
unfolding post_prize prizes_of
post_prize-Pays fmt club t now w db least = elim (ltb_ℤ_cases (pos 0) w.prize_amount) [
  | inl (e, _) ↦ rw e record {
    wallet = λ player. wallet_balance-prize_row _ _ _ _ _ _ _ _ _ player ∙ omega int_laws;
    credit = credit_balance-prize_row _ _ _ _ _ _ _ _ _;
    chips = session_chips-prize_row _ _ _ _ _ _ _ _ _;
    elsewhere = elsewhere-prize_row _ _ _ _ _ _ _ _ _;
  }
  | inr (e, none_due) ↦ rw e record {
    wallet = λ player.
        rw (if_zero (w.player_id == player) w.prize_amount none_due least) (omega int_laws);
    credit = λ _ _. refl;
    chips = λ _ _ _. refl;
    elsewhere = λ _ _ _. refl;
  }
]

Pays-more :
    {club : ℕ} {w : Winner} {ws : List Winner} {db db' db'' : Db}
    → Pays club (w ∷ []) db db'
    → Pays club ws db' db''
    → Pays club (w ∷ ws) db db''
unfolding prizes_of
Pays-more p q = record {
  wallet = λ player. q.wallet player ∙ rw (p.wallet player) (omega int_laws);
  credit = λ c player. q.credit c player ∙ p.credit c player;
  chips = λ c player since. q.chips c player since ∙ p.chips c player since;
  elsewhere = λ c player h. q.elsewhere c player h ∙ p.elsewhere c player h;
}

pub award_all-Pays :
    (fmt : NumberFormat) (club id : ℕ) (t : Tournament) (now : ℕ) (ws : List Winner)
    (s : TournamentDb)
    → All HasNoDebt ws
    → Pays club ws s.floor (award_all fmt club id t now ws s).floor
unfolding award_all award
award_all-Pays fmt club id t now [] s h = Pays-none club s.floor
award_all-Pays fmt club id t now (w ∷ ws) s h =
    Pays-more (post_prize-Pays fmt club t now w s.floor h.0)
      (award_all-Pays fmt club id t now ws (award fmt club id t now w s) h.1)

pub award_all-tournaments :
    (fmt : NumberFormat) (club id : ℕ) (t : Tournament) (now : ℕ) (ws : List Winner)
    (s : TournamentDb)
    → (award_all fmt club id t now ws s).tournaments ≡ s.tournaments
unfolding award_all award
award_all-tournaments fmt club id t now [] s = refl
award_all-tournaments fmt club id t now (w ∷ ws) s =
    award_all-tournaments fmt club id t now ws (award fmt club id t now w s)

check_winner-HasNoDebt : (r : RawWinner) {w : Winner} → check_winner r ≡ ok w → HasNoDebt w
unfolding check_winner
check_winner-HasNoDebt r {w} h =
    let (p, _, h1) = or_throw-eq-ok r.player_id (bad_request 1) _ h in
    let (n, _, h2) = or_throw-eq-ok r.finishing_position (bad_request 2) _ h1 in
    let (_, h3) = throw_if-eq-ok (n == 0) (bad_request 2) _ h2 in
    let (a, _, h4) = or_throw-eq-ok r.prize_amount (bad_request 3) _ h3 in
    let (least, h5) = throw_if-eq-ok (ltb_ℤ a (pos 0)) (bad_request 3) _ h4 in
    rw (← ok-injective _ w h5) (not_ltb_ℤ a (pos 0) least)

pub check_winners-HasNoDebt :
    (rs : List RawWinner) {ws : List Winner} → check_winners rs ≡ ok ws → All HasNoDebt ws
unfolding check_winners
check_winners-HasNoDebt [] {ws} h = rw (← ok-injective _ ws h) tt
check_winners-HasNoDebt (r ∷ rs) {ws} h =
    let (w, hw, h1) = >>=-eq-ok (check_winner r) _ h in
    let (us, hu, h2) = >>=-eq-ok (check_winners rs) _ h1 in
    rw (← ok-injective _ ws h2) (check_winner-HasNoDebt r hw, check_winners-HasNoDebt rs hu)
