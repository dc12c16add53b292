-- ===== src/Transactions/Repayment.antt =====
-- The repayment that create of src/clubs/services/financial-transactions.service.ts posts with a
-- club buy-in of a player whose wallet is negative.
use poker_crm_backend.Base.{
  ◌+◌, ◌*◌, ◌/◌, ℕ, ◌≤◌, ◌≡◌, refl, ◌∙◌, true, some, List, ◌∷◌, if◌then◌else◌, Bool-cases, inl, inr,
  arith,
}
use poker_crm_backend.Base.Int.{
  ℤ, pos, negsuc, pos_part, ◌+ℤ◌, ◌-ℤ◌, neg, min_ℤ, max_ℤ, ltb_ℤ, int_laws,
}
use poker_crm_backend.Base.Result.{ok}
use poker_crm_backend.Base.Text.{codes, lower, lower-append, contains-append}
use poker_crm_backend.Base.Rows.{find?}
use poker_crm_backend.Entities.{Db, Transaction, TransactionType, TransactionStatus, new_row, post}
use poker_crm_backend.Ledger.{
  wallet_balance, credit_balance, session_chips, wallet_delta, credit_delta, chips_delta,
  wallet_case, credit_case, chips_case, is_repayment, repayment_phrase,
}
use poker_crm_backend.Ledger.NetWorth.{net_worth}
use poker_crm_backend.Floor.Format.{NumberFormat}
use poker_crm_backend.Floor.Seating.Assign.{is_player}
use poker_crm_backend.Transactions.{
  NewTransaction, create_transaction, entered_row, is_club_buy_in, has_credit, post_repayment,
  auto_completes, repaid_part, round_cents, repayment_note,
}
use poker_crm_backend.Transactions.Worth.{Counts, Counts-posted}
use poker_crm_backend.Transactions.Accepted.{create_transaction-IsEntered}
use poker_crm_backend.Base.Text.{trim}
use poker_crm_backend.Ledger.Posted.{
  wallet_balance_posted, credit_balance_posted, session_chips_posted,
}

-- The part of the amount by which the wallet was below zero before the cash came in.
abbrev pub debt_covered : ℤ → ℤ → ℤ
debt_covered a wallet = min_ℤ a (max_ℤ (pos 0) (neg wallet))

-- The repayment: that part to the nearest hundredth of a rupee, half of one upwards, or nothing where
-- it is at most 0.004 rupees.
abbrev pub repayment : ℤ → ℤ → ℤ
repayment a wallet =
    if ltb_ℤ (pos 40) (debt_covered a wallet)
    then pos ((pos_part (debt_covered a wallet) + 50) / 100 * 100)
    else pos 0

round_cents-positive :
    (d : ℤ) → ltb_ℤ (pos 40) d ≡ true → round_cents d ≡ pos ((pos_part d + 50) / 100 * 100)
unfolding round_cents
round_cents-positive (pos n) h = refl
round_cents-positive (negsuc n) h = absurd (ground arith)

-- The wallet takes the whole amount, and the credit drawn falls by the repayment as well.
pub record Receives (club player since : ℕ) (a : ℤ) (ts ts' : List Transaction) : Type 0 where
  pub wallet : wallet_balance club player ts' ≡ wallet_balance club player ts +ℤ a
  pub credit :
      credit_balance club player ts'
      ≡ credit_balance club player ts -ℤ repayment a (wallet_balance club player ts)
  pub chips : session_chips club player since ts' ≡ session_chips club player since ts

Receives-worth :
    {club player since : ℕ} {a : ℤ} {ts ts' : List Transaction}
    → Receives club player since a ts ts'
    → net_worth club player since ts'
      ≡ net_worth club player since ts +ℤ a +ℤ repayment a (wallet_balance club player ts)
unfolding net_worth
Receives-worth {club} {player} {since} {a} {ts} r =
    let due = repayment a (wallet_balance club player ts) in
    rw (r.wallet, r.credit, r.chips) (omega int_laws)

-- The note of the repayment contains the phrase that keeps a debit out of the wallet.
repayment_note-is_repayment :
    (fmt : NumberFormat) (a : ℤ) → is_repayment (some (repayment_note fmt a)) ≡ true
unfolding is_repayment repayment_note
repayment_note-is_repayment fmt a =
    rw (lower-append (codes "Club buy-in — "), lower-append (codes "credit line repayment"))
      (unfold lower in contains-append (lower (codes "Club buy-in — ")) repayment_phrase _)

module _ (fmt : NumberFormat) (club since : ℕ) (d : NewTransaction) (a : ℤ) (now : ℕ) (db : Db)
    (late : since ≤ now) where
  abbrev saved : Db
  saved = post (entered_row club d TransactionType.club_buy_in a now) db

  saved-Counts :
      Counts since
        (entered_row club d TransactionType.club_buy_in a now db.next_id)
        db.ledger
        saved.ledger
  unfolding entered_row
  saved-Counts = Counts-posted since _ db.ledger late

  abbrev before : ℤ
  before = wallet_balance club d.player_id db.ledger

  saved_wallet : wallet_balance club d.player_id saved.ledger ≡ before +ℤ a
  unfolding entered_row auto_completes wallet_delta wallet_case
  saved_wallet = saved-Counts.wallet ∙ omega int_laws

  saved_credit :
      credit_balance club d.player_id saved.ledger ≡ credit_balance club d.player_id db.ledger
  unfolding entered_row auto_completes credit_delta credit_case
  saved_credit = saved-Counts.credit ∙ omega int_laws

  saved_chips :
      session_chips club d.player_id since saved.ledger
      ≡ session_chips club d.player_id since db.ledger
  unfolding entered_row auto_completes chips_delta chips_case
  saved_chips = saved-Counts.chips ∙ omega int_laws

  wallet_before : wallet_balance club d.player_id saved.ledger -ℤ a ≡ before
  wallet_before = rw saved_wallet (omega int_laws)

  -- The repayment, with its row in the ledger.
  module _ (m : ℤ) (id : ℕ) where
    abbrev debit_row : Transaction
    debit_row =
        new_row club d.player_id (trim d.player_name) m TransactionType.debit d.game_type
          (some (repayment_note fmt m)) TransactionStatus.completed now id

    debit_wallet : wallet_balance club d.player_id (debit_row ∷ saved.ledger) ≡ before +ℤ a
    unfolding wallet_delta wallet_case
    debit_wallet =
        let free : wallet_delta debit_row ≡ pos 0 = (rw (repayment_note-is_repayment fmt m) refl) in
        wallet_balance_posted debit_row saved.ledger ∙ rw (free, saved_wallet) (omega int_laws)

    debit_credit :
        credit_balance club d.player_id (debit_row ∷ saved.ledger)
        ≡ credit_balance club d.player_id db.ledger -ℤ m
    unfolding credit_delta credit_case
    debit_credit = credit_balance_posted debit_row saved.ledger ∙ rw saved_credit (omega int_laws)

    debit_chips :
        session_chips club d.player_id since (debit_row ∷ saved.ledger)
        ≡ session_chips club d.player_id since db.ledger
    unfolding chips_delta chips_case
    debit_chips =
        session_chips_posted debit_row saved.ledger since late ∙ rw saved_chips (omega int_laws)

  post_repayment-Receives :
      Receives club d.player_id since a db.ledger (post_repayment fmt club d a now saved).ledger
  unfolding post_repayment repaid_part
  post_repayment-Receives = elim (Bool-cases (ltb_ℤ (pos 40) (debt_covered a before))) [
    | inl e ↦
        let due : repayment a before ≡ round_cents (debt_covered a before) =
          rw (e, round_cents-positive (debt_covered a before) e) refl in
        rw (wallet_before, e)
          record {
            wallet = debit_wallet _ _;
            credit = rw due (debit_credit _ _);
            chips = debit_chips _ _;
          }
    | inr e ↦
        let none_due : repayment a before ≡ pos 0 = (rw e refl) in
        rw (wallet_before, e)
          record {
            wallet = saved_wallet;
            credit = rw none_due (saved_credit ∙ omega int_laws);
            chips = saved_chips;
          }
  ]

is_club_buy_in_sound :
    (type : TransactionType) → is_club_buy_in type ≡ true → type ≡ TransactionType.club_buy_in
unfolding is_club_buy_in
is_club_buy_in_sound type h = ground arith

-- A club buy-in that is entered for a player with credit raises the wallet by its whole amount and
-- leaves the chips, and at once lowers the credit drawn by the repayment: the part of the amount
-- that the wallet was below zero, rounded to a hundredth of a rupee, or nothing where that part is
-- at most 0.004 rupees. The player's net worth so grows by the amount and the repayment together.
pub create_transaction-Receives :
    (fmt : NumberFormat) (club since : ℕ) (d : NewTransaction) (now : ℕ) (db : Db)
    {r : Transaction × Db}
    → since ≤ now
    → create_transaction fmt club d now db ≡ ok r
    → is_club_buy_in r.0.txn_type ≡ true
    → has_credit (find? (is_player club d.player_id) db.players) ≡ true
    → Receives club d.player_id since r.0.amount db.ledger r.1.ledger
      × (net_worth club d.player_id since r.1.ledger
          ≡ net_worth club d.player_id since db.ledger
            +ℤ r.0.amount
            +ℤ repayment r.0.amount (wallet_balance club d.player_id db.ledger))
create_transaction-Receives fmt club since d now db {r} late h buys credited =
    let e = create_transaction-IsEntered fmt club d now db h in
    let type : e.type ≡ TransactionType.club_buy_in =
      is_club_buy_in_sound e.type (unfold entered_row in (rw (← e.result) at buys)) in
    let effect = post_repayment-Receives fmt club since d e.a now db late in
    let got : Receives club d.player_id since r.0.amount db.ledger r.1.ledger =
      (rw (← e.result, type, credited) (unfold is_club_buy_in entered_row in effect)) in
    (got, Receives-worth got)
