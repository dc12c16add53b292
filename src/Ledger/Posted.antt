-- ===== src/Ledger/Posted.antt =====
-- The balances of entities/financial-transaction.entity.ts under one more row of any status.
use poker_crm_backend.Base.{ℕ, ◌≡◌, ◌≤◌, arith, false, List, ◌∷◌, if◌then◌else◌, ◌∙◌}
use poker_crm_backend.Base.Int.{ℤ, pos, ◌+ℤ◌, int_laws}
use poker_crm_backend.Entities.{Transaction, is_completed}
use poker_crm_backend.Ledger.{
  sum_rows, is_mine, wallet_delta, credit_delta, chips_delta, wallet_balance, credit_balance,
  session_chips,
}
use poker_crm_backend.Ledger.Balances.{same_account, KeepsOthers}

-- What a row counts for: nothing until it is completed.
abbrev pub counted : (Transaction → ℤ) → Transaction → ℤ
counted delta t = if is_completed t.status then delta t else pos 0

module _ (t : Transaction) (ts : List Transaction) where
  pub wallet_balance_posted :
      wallet_balance t.club_id t.player_id (t ∷ ts)
      ≡ counted wallet_delta t +ℤ wallet_balance t.club_id t.player_id ts
  unfolding wallet_balance sum_rows is_mine
  wallet_balance_posted = ground arith

  pub credit_balance_posted :
      credit_balance t.club_id t.player_id (t ∷ ts)
      ≡ counted credit_delta t +ℤ credit_balance t.club_id t.player_id ts
  unfolding credit_balance sum_rows is_mine
  credit_balance_posted = ground arith

  pub session_chips_posted :
      (since : ℕ)
      → since ≤ t.created_at
      → session_chips t.club_id t.player_id since (t ∷ ts)
        ≡ counted chips_delta t +ℤ session_chips t.club_id t.player_id since ts
  unfolding session_chips sum_rows is_mine
  session_chips_posted since h = ground arith

  pub other_balances_posted :
      (club player since : ℕ)
      → same_account t.club_id t.player_id club player ≡ false
      → (wallet_balance club player (t ∷ ts) ≡ wallet_balance club player ts)
        × (credit_balance club player (t ∷ ts) ≡ credit_balance club player ts)
        × (session_chips club player since (t ∷ ts) ≡ session_chips club player since ts)
  unfolding wallet_balance credit_balance session_chips sum_rows is_mine
  other_balances_posted club player since h =
      let skipped : is_mine club player t ≡ false = (unfold is_mine in ground arith) in
      (rw skipped (omega int_laws), rw skipped (omega int_laws), rw skipped (omega int_laws))

  pub KeepsOthers-posted :
      (us : List Transaction)
      → KeepsOthers t.club_id t.player_id us ts
      → KeepsOthers t.club_id t.player_id us (t ∷ ts)
  KeepsOthers-posted us keeps = record {
    others = λ c p since h.
        let (w, cr, ch) = keeps.others c p since h in
        let (w', cr', ch') = other_balances_posted c p since h in (w' ∙ w, cr' ∙ cr, ch' ∙ ch);
  }
