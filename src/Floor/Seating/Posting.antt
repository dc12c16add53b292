-- ===== src/Floor/Seating/Posting.antt =====
-- The balances after the rows that assignSeat of
-- src/clubs/services/waitlist-seating.service.ts inserts.
use poker_crm_backend.Base.{ℕ, ◌≡◌, ◌≤◌, refl, Option, inl, inr}
use poker_crm_backend.Base.Int.{ℤ, pos, ◌+ℤ◌, ◌-ℤ◌, ◌≤ℤ◌, int_laws, ltb_ℤ_cases}
use poker_crm_backend.Entities.{Db, Table, Player, game_of}
use poker_crm_backend.Ledger.{
  wallet_balance, credit_balance, session_chips, wallet_case, credit_case, chips_case,
}
use poker_crm_backend.Ledger.Balances.{
  wallet_balance_row, credit_balance_row, session_chips_row, KeepsOthers, KeepsOthers-refl,
  KeepsOthers-row,
}
use poker_crm_backend.Ledger.NetWorth.{net_worth, net_worth-credit, net_worth-table_buy_in}
use poker_crm_backend.Floor.Format.{NumberFormat}
use poker_crm_backend.Floor.Seating.Opening.{post_cash, post_credit, cash_note}
use poker_crm_backend.Floor.Seating.Notes.{cash_note-unmarked, pair_note-marked}

-- The changes of the three balances of an account.
pub record Changes (club player since : ℕ) (wallet credit chips : ℤ) (db db' : Db) : Type 0 where
  pub wallet_change :
      wallet_balance club player db'.ledger ≡ wallet_balance club player db.ledger +ℤ wallet
  pub credit_change :
      credit_balance club player db'.ledger ≡ credit_balance club player db.ledger +ℤ credit
  pub chips_change :
      session_chips club player since db'.ledger
      ≡ session_chips club player since db.ledger +ℤ chips

module _ (fmt : NumberFormat) (club : ℕ) (p : Player) (t : Table) (seat : Option ℕ) (a : ℤ)
    (now : ℕ) (db : Db) (nonneg : pos 0 ≤ℤ a) where
  pub post_cash-Changes :
      (since : ℕ)
      → since ≤ now
      → Changes club p.id since (pos 0 -ℤ a) (pos 0) a db (post_cash fmt club p t seat a now db)
  unfolding post_cash wallet_case credit_case chips_case
  post_cash-Changes since h = elim (ltb_ℤ_cases (pos 0) a) [
    | inl (e, _) ↦ rw e (record {
      wallet_change = rw (wallet_balance_row, cash_note-unmarked) (omega int_laws);
      credit_change = rw credit_balance_row (omega int_laws);
      chips_change = rw (session_chips_row, h, cash_note-unmarked) (omega int_laws);
    })
    | inr (e, zero) ↦ rw e (record {
      wallet_change = omega int_laws;
      credit_change = omega int_laws;
      chips_change = omega int_laws;
    })
  ]

  pub post_credit-Changes :
      (since : ℕ)
      → since ≤ now
      → Changes club p.id since (pos 0) a a db (post_credit fmt club p t seat a now db)
  unfolding post_credit wallet_case credit_case chips_case
  post_credit-Changes since h = elim (ltb_ℤ_cases (pos 0) a) [
    | inl (e, _) ↦ rw e (record {
      wallet_change =
          rw (wallet_balance_row, wallet_balance_row, pair_note-marked) (omega int_laws);
      credit_change = rw (credit_balance_row, credit_balance_row) (omega int_laws);
      chips_change = simp (session_chips_row, h, pair_note-marked) (omega int_laws);
    })
    | inr (e, zero) ↦ rw e (record {
      wallet_change = omega int_laws;
      credit_change = omega int_laws;
      chips_change = omega int_laws;
    })
  ]

  pub post_cash-KeepsOthers :
      KeepsOthers club p.id db.ledger (post_cash fmt club p t seat a now db).ledger
  unfolding post_cash
  post_cash-KeepsOthers = elim (ltb_ℤ_cases (pos 0) a) [
    | inl (e, _) ↦ rw e (KeepsOthers-row _ _ (KeepsOthers-refl db.ledger))
    | inr (e, _) ↦ rw e (KeepsOthers-refl db.ledger)
  ]

  pub post_credit-KeepsOthers :
      KeepsOthers club p.id db.ledger (post_credit fmt club p t seat a now db).ledger
  unfolding post_credit
  post_credit-KeepsOthers = elim (ltb_ℤ_cases (pos 0) a) [
    | inl (e, _) ↦ rw e (KeepsOthers-row _ _ (KeepsOthers-row _ _ (KeepsOthers-refl db.ledger)))
    | inr (e, _) ↦ rw e (KeepsOthers-refl db.ledger)
  ]

-- The rows leave the net worth of every account alone.
module _ (fmt : NumberFormat) (owner_club : ℕ) (p : Player) (t : Table) (seat : Option ℕ) (a : ℤ)
    (now : ℕ) (db : Db) (club player since : ℕ) (late : since ≤ now) where
  pub net_worth-post_cash :
      net_worth club player since (post_cash fmt owner_club p t seat a now db).ledger
      ≡ net_worth club player since db.ledger
  unfolding post_cash
  net_worth-post_cash = elim (ltb_ℤ_cases (pos 0) a) [
    | inl (e, _) ↦ rw e (
        net_worth-table_buy_in club player since owner_club p.id p.name a (game_of t.table_type)
          (cash_note fmt t seat a) now db.next_id db.ledger late)
    | inr (e, _) ↦ rw e
  ]

  pub net_worth-post_credit :
      net_worth club player since (post_credit fmt owner_club p t seat a now db).ledger
      ≡ net_worth club player since db.ledger
  unfolding post_credit
  net_worth-post_credit = elim (ltb_ℤ_cases (pos 0) a) [
    | inl (e, _) ↦ rw e (rw (net_worth-table_buy_in, net_worth-credit, late, late) refl)
    | inr (e, _) ↦ rw e
  ]
