-- ===== src/Ledger/Balances.antt =====
-- The balances of entities/financial-transaction.entity.ts under one more row, and which notes make
-- a row count.
use poker_crm_backend.Base.{
  ℕ, ◌≡◌, refl, arith, Bool, true, false, ◌&&◌, some, List, ◌∷◌, ◌++◌, ◌≤◌, ◌==◌,
}
use poker_crm_backend.Base.Int.{ℤ, ◌+ℤ◌, pos-+ℤ}
use poker_crm_backend.Base.Text.{Text, has, lower, contains-append, contains_absent}
use poker_crm_backend.Entities.{Transaction, TransactionType, GameType, completed_row}
use poker_crm_backend.Ledger.{
  pair_marker, repayment_phrase, has_marker, is_repayment, sum_rows, is_mine, wallet_case,
  credit_case, chips_case, wallet_delta, credit_delta, chips_delta, wallet_balance, credit_balance,
  session_chips,
}
use poker_crm_backend.Base.Text.{Lacks}
use poker_crm_backend.Base.Text.{Lacks-has_upper}
use poker_crm_backend.Base.{◌∙◌}

-- A note that the marker was pasted into is marked.
pub has_marker_pasted : (r s : Text) → has_marker (some (r ++ (pair_marker ++ s))) ≡ true
unfolding has_marker
has_marker_pasted r s = contains-append r pair_marker s

-- A note that lacks the letter w is not marked.
pub has_marker_absent : (s : Text) → Lacks b'w' s → has_marker (some s) ≡ false
unfolding has_marker
has_marker_absent s h =
    contains_absent b'W' pair_marker s (unfold has in refl) (Lacks-has_upper s h)

-- A note that lacks a letter of the phrase is no repayment.
pub is_repayment_absent :
    (k : ℕ) (s : Text) → has k repayment_phrase ≡ true → Lacks k s → is_repayment (some s) ≡ false
unfolding is_repayment
is_repayment_absent k s h h' = contains_absent k repayment_phrase (lower s) h h'

sum_rows_counted :
    (p : Transaction → Bool) (d : Transaction → ℤ) (t : Transaction) (ts : List Transaction)
    → p t ≡ true
    → sum_rows p d (t ∷ ts) ≡ d t +ℤ sum_rows p d ts
unfolding sum_rows
sum_rows_counted p d t ts h = rw h

sum_rows_skipped :
    (p : Transaction → Bool) (d : Transaction → ℤ) (t : Transaction) (ts : List Transaction)
    → p t ≡ false
    → sum_rows p d (t ∷ ts) ≡ sum_rows p d ts
unfolding sum_rows
sum_rows_skipped p d t ts h = rw h (pos-+ℤ (sum_rows p d ts))

-- The two ids name one account.
abbrev pub same_account : ℕ → ℕ → ℕ → ℕ → Bool
same_account club player club' player' = club' == club && player' == player

module _ (club player : ℕ) (name : Text) (a : ℤ) (type : TransactionType) (game : GameType)
    (notes : Text) (now id : ℕ) (ts : List Transaction) where
  -- The balances of the account that a completed row is about.
  pub wallet_balance_row :
      wallet_balance club player (completed_row club player name a type game notes now id ∷ ts)
      ≡ wallet_case type (some notes) a +ℤ wallet_balance club player ts
  unfolding wallet_balance wallet_delta is_mine
  wallet_balance_row = sum_rows_counted _ _ _ ts (ground arith)

  pub credit_balance_row :
      credit_balance club player (completed_row club player name a type game notes now id ∷ ts)
      ≡ credit_case type a +ℤ credit_balance club player ts
  unfolding credit_balance credit_delta is_mine
  credit_balance_row = sum_rows_counted _ _ _ ts (ground arith)

  pub session_chips_row :
      (since : ℕ)
      → since ≤ now
      → session_chips club player since
          (completed_row club player name a type game notes now id ∷ ts)
        ≡ chips_case type (some notes) a +ℤ session_chips club player since ts
  unfolding session_chips chips_delta is_mine
  session_chips_row since h = sum_rows_counted _ _ _ ts (ground arith)

  -- The balances of every other account stay as they are.
  pub other_balances_row :
      (club' player' since : ℕ)
      → same_account club player club' player' ≡ false
      → let row = completed_row club player name a type game notes now id in
        (wallet_balance club' player' (row ∷ ts) ≡ wallet_balance club' player' ts)
        × (credit_balance club' player' (row ∷ ts) ≡ credit_balance club' player' ts)
        × (session_chips club' player' since (row ∷ ts) ≡ session_chips club' player' since ts)
  unfolding wallet_balance credit_balance session_chips is_mine
  other_balances_row club' player' since h = (
    sum_rows_skipped _ _ _ ts (ground arith),
    sum_rows_skipped _ _ _ ts (ground arith),
    sum_rows_skipped _ _ _ ts (ground arith),
  )

-- The balances of every other account are as they were.
pub record KeepsOthers (club player : ℕ) (ts ts' : List Transaction) : Type 0 where
  pub others :
      (club' player' since : ℕ)
      → same_account club player club' player' ≡ false
      → (wallet_balance club' player' ts' ≡ wallet_balance club' player' ts)
        × (credit_balance club' player' ts' ≡ credit_balance club' player' ts)
        × (session_chips club' player' since ts' ≡ session_chips club' player' since ts)

pub KeepsOthers-refl : {club player : ℕ} (ts : List Transaction) → KeepsOthers club player ts ts
KeepsOthers-refl ts = record { others = λ _ _ _ _. (refl, refl, refl) }

pub KeepsOthers-row :
    {club player : ℕ} {name : Text} {a : ℤ} {type : TransactionType} {game : GameType}
    {notes : Text} {now id : ℕ} (ts ts' : List Transaction)
    → KeepsOthers club player ts ts'
    → KeepsOthers club player ts (completed_row club player name a type game notes now id ∷ ts')
KeepsOthers-row {club} {player} {name} {a} {type} {game} {notes} {now} {id} ts ts' keeps = record {
  others = λ c p since h.
      let (w, cr, ch) = keeps.others c p since h in
      let (w', cr', ch') =
        other_balances_row club player name a type game notes now id ts' c p since h in
      (w' ∙ w, cr' ∙ cr, ch' ∙ ch);
}

pub KeepsOthers-trans :
    {club player : ℕ} {ts us vs : List Transaction}
    → KeepsOthers club player ts us
    → KeepsOthers club player us vs
    → KeepsOthers club player ts vs
KeepsOthers-trans k l = record {
  others = λ c p since h.
      let (w, cr, ch) = k.others c p since h in
      let (w', cr', ch') = l.others c p since h in (w' ∙ w, cr' ∙ cr, ch' ∙ ch);
}
