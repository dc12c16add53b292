-- ===== src/Transactions/Replaced.antt =====
-- The balances of entities/financial-transaction.entity.ts where one row is saved anew.
use poker_crm_backend.Base.{
  ℕ, ◌≡◌, refl, sym, arith, Bool, true, false, ◌&&◌, ◌==◌, List, [], ◌∷◌, leb, if◌then◌else◌, ◌∙◌,
  All, Memᴰ,
}
use poker_crm_backend.Base.Int.{ℤ, pos, ◌+ℤ◌, ◌-ℤ◌, int_laws}
use poker_crm_backend.Base.Rows.{update_where, All-mem}
use poker_crm_backend.Entities.{Transaction}
use poker_crm_backend.Ledger.{
  sum_rows, is_mine, wallet_delta, credit_delta, chips_delta, wallet_balance, credit_balance,
  session_chips,
}
use poker_crm_backend.Ledger.Posted.{counted}
use poker_crm_backend.Ledger.Balances.{KeepsOthers}
use mathlib.Core.Path.{subst}

-- The primary key: no two rows of the ledger have one id.
abbrev pub AreKeysDistinct : List Transaction → Type 0
AreKeysDistinct [] = Unit
AreKeysDistinct (t ∷ ts) = All (λ (o : Transaction). (o.id == t.id) ≡ false) ts × AreKeysDistinct ts

abbrev pub with_row : Transaction → Transaction → List Transaction → List Transaction
with_row t t' = update_where (λ (o : Transaction). o.id == t.id) (λ _. t')

with_row-absent :
    (t t' : Transaction) (ts : List Transaction)
    → All (λ (o : Transaction). (o.id == t.id) ≡ false) ts
    → with_row t t' ts ≡ ts
unfolding update_where
with_row-absent t t' [] h = refl
with_row-absent t t' (o ∷ os) h = rw (h.0, with_row-absent t t' os h.1) refl

abbrev share : (Transaction → Bool) → (Transaction → ℤ) → Transaction → ℤ
share p d t = if p t then d t else pos 0

eq_sym : (m n : ℕ) → (m == n) ≡ false → (n == m) ≡ false
eq_sym m n h = ground arith

eq_same : (n : ℕ) → (n == n) ≡ true
eq_same n = ground arith

sum_rows-with_head :
    (p : Transaction → Bool) (d : Transaction → ℤ) (t t' : Transaction) (ts : List Transaction)
    → All (λ (o : Transaction). (o.id == t.id) ≡ false) ts
    → sum_rows p d (with_row t t' (t ∷ ts)) ≡ sum_rows p d (t ∷ ts) -ℤ share p d t +ℤ share p d t'
unfolding sum_rows update_where
sum_rows-with_head p d t t' ts h = rw (eq_same t.id, with_row-absent t t' ts h) (omega int_laws)

-- A sum over the rows loses the share of the old row and gains that of the new one.
sum_rows-with_row :
    (p : Transaction → Bool) (d : Transaction → ℤ) (t t' : Transaction) (ts : List Transaction)
    → AreKeysDistinct ts
    → Memᴰ t ts
    → sum_rows p d (with_row t t' ts) ≡ sum_rows p d ts -ℤ share p d t +ℤ share p d t'
unfolding sum_rows update_where
sum_rows-with_row p d t t' [] keys m = elim m [ ]
sum_rows-with_row p d t t' (o ∷ os) keys (Memᴰ.head e) =
    subst
      (λ (x : Transaction).
        sum_rows p d (with_row t t' (x ∷ os))
        ≡ sum_rows p d (x ∷ os) -ℤ share p d t +ℤ share p d t')
      e
      (sum_rows-with_head p d t t' os (
        subst (λ (x : Transaction). All (λ (y : Transaction). (y.id == x.id) ≡ false) os) (sym e)
          keys.0))
sum_rows-with_row p d t t' (o ∷ os) keys (Memᴰ.tail m) =
    let other = eq_sym t.id o.id (All-mem _ os keys.0 m) in
    let ih = sum_rows-with_row p d t t' os keys.1 m in rw (other, ih) (omega int_laws)

-- The balances of the row's player lose what the old row counted for and gain what the new one
-- counts for, and the balances of every other account stay.
pub record Replaces (t t' : Transaction) (ts ts' : List Transaction) : Type 0 where
  pub wallet :
      wallet_balance t.club_id t.player_id ts'
      ≡ wallet_balance t.club_id t.player_id ts -ℤ counted wallet_delta t +ℤ counted wallet_delta t'
  pub credit :
      credit_balance t.club_id t.player_id ts'
      ≡ credit_balance t.club_id t.player_id ts -ℤ counted credit_delta t +ℤ counted credit_delta t'
  pub chips :
      (since : ℕ)
      → leb since t.created_at ≡ true
      → session_chips t.club_id t.player_id since ts'
        ≡ session_chips t.club_id t.player_id since ts
          -ℤ counted chips_delta t
          +ℤ counted chips_delta t'
  pub keeps_others : KeepsOthers t.club_id t.player_id ts ts'

module _ (t t' : Transaction) (ts : List Transaction) (keys : AreKeysDistinct ts)
    (there : Memᴰ t ts) (same_club : t'.club_id ≡ t.club_id)
    (same_player : t'.player_id ≡ t.player_id) (same_time : t'.created_at ≡ t.created_at) where
  share_mine : (d : Transaction → ℤ) → share (is_mine t.club_id t.player_id) d t ≡ counted d t
  unfolding is_mine
  share_mine d = ground arith

  share_mine' : (d : Transaction → ℤ) → share (is_mine t.club_id t.player_id) d t' ≡ counted d t'
  unfolding is_mine
  share_mine' d = ground arith

  abbrev mine_since : ℕ → Transaction → Bool
  mine_since since o = is_mine t.club_id t.player_id o && leb since o.created_at

  share_since :
      (since : ℕ)
      → leb since t.created_at ≡ true
      → (d : Transaction → ℤ) → share (mine_since since) d t ≡ counted d t
  unfolding is_mine
  share_since since late d = rw late (ground arith)

  share_since' :
      (since : ℕ)
      → leb since t.created_at ≡ true
      → (d : Transaction → ℤ) → share (mine_since since) d t' ≡ counted d t'
  unfolding is_mine
  share_since' since late d = ground arith

  unchanged :
      (p : Transaction → Bool) (d : Transaction → ℤ)
      → p t ≡ false
      → p t' ≡ false
      → sum_rows p d (with_row t t' ts) ≡ sum_rows p d ts
  unchanged p d h h' = sum_rows-with_row p d t t' ts keys there ∙ rw (h, h') (omega int_laws)

  pub with_row-Replaces : Replaces t t' ts (with_row t t' ts)
  unfolding wallet_balance credit_balance session_chips
  with_row-Replaces = record {
    wallet =
        sum_rows-with_row (is_mine t.club_id t.player_id) wallet_delta t t' ts keys there
        ∙ rw (share_mine wallet_delta, share_mine' wallet_delta) refl;
    credit =
        sum_rows-with_row (is_mine t.club_id t.player_id) credit_delta t t' ts keys there
        ∙ rw (share_mine credit_delta, share_mine' credit_delta) refl;
    chips = λ since late.
        sum_rows-with_row (mine_since since) chips_delta t t' ts keys there
        ∙ rw (share_since since late chips_delta, share_since' since late chips_delta) refl;
    keeps_others = record {
      others = λ c p since h.
          let old : is_mine c p t ≡ false = (unfold is_mine in ground arith) in
          let new : is_mine c p t' ≡ false = (unfold is_mine in ground arith) in
          (
            unchanged (is_mine c p) wallet_delta old new,
            unchanged (is_mine c p) credit_delta old new,
            unchanged _ chips_delta (rw old refl) (rw new refl),
          );
    };
  }
