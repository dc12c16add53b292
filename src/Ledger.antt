-- ===== src/Ledger.antt =====
-- The balances that the SQL of entities/financial-transaction.entity.ts computes from the ledger:
-- wallet, credit drawn, and chips on a table since a player was seated.
pub mod Balances
pub mod NetWorth
pub mod Posted
use poker_crm_backend.Base.{
  ℕ, Bool, true, false, Option, none, some, List, [], ◌∷◌, ◌&&◌, ◌==◌, leb, if◌then◌else◌,
}
use poker_crm_backend.Base.Int.{ℤ, pos, ◌+ℤ◌, neg}
use poker_crm_backend.Base.Text.{Text, codes, lower, contains}
use poker_crm_backend.Entities.{Transaction, TransactionType, is_completed}

-- TABLE_BUY_IN_CREDIT_LINE_WALLET_PAIR_MARKER
abbrev pub pair_marker : Text
pair_marker = codes "WBPAIRCL2T"

abbrev pub repayment_phrase : Text
repayment_phrase = codes "credit line repayment"

-- `COALESCE(notes, '')`
abbrev pub notes_text : Option Text → Text
notes_text none = []
notes_text (some s) = s

-- `strpos(COALESCE(notes, ''), 'WBPAIRCL2T') > 0`
unfoldable pub has_marker : Option Text → Bool
has_marker notes = contains pair_marker (notes_text notes)

-- `strpos(lower(COALESCE(notes, '')), 'credit line repayment') > 0`
unfoldable pub is_repayment : Option Text → Bool
is_repayment notes = contains repayment_phrase (lower (notes_text notes))

-- The CASE of WALLET_BALANCE_SQL.
unfoldable pub wallet_case : TransactionType → Option Text → ℤ → ℤ
wallet_case TransactionType.deposit notes a = a
wallet_case TransactionType.club_buy_in notes a = a
wallet_case TransactionType.table_buy_out notes a = a
wallet_case TransactionType.bonus notes a = a
wallet_case TransactionType.refund notes a = a
wallet_case TransactionType.tournament_win notes a = a
wallet_case TransactionType.table_buy_in notes a = if has_marker notes then pos 0 else neg a
wallet_case TransactionType.buy_in notes a = if has_marker notes then pos 0 else neg a
wallet_case TransactionType.debit notes a = if is_repayment notes then pos 0 else neg a
wallet_case TransactionType.withdrawal notes a = neg a
wallet_case TransactionType.club_buy_out notes a = neg a
wallet_case TransactionType.cashout notes a = neg a
wallet_case TransactionType.register notes a = neg a
wallet_case TransactionType.credit notes a = pos 0
wallet_case TransactionType.rake notes a = pos 0
wallet_case TransactionType.tip notes a = pos 0

-- The CASE of CREDIT_BALANCE_SQL.
unfoldable pub credit_case : TransactionType → ℤ → ℤ
credit_case TransactionType.credit a = a
credit_case TransactionType.debit a = neg a
credit_case _ a = pos 0

-- SESSION_TABLE_CHIPS_SUM_CASE_INNER
unfoldable pub chips_case : TransactionType → Option Text → ℤ → ℤ
chips_case TransactionType.credit notes a = a
chips_case TransactionType.buy_in notes a = if has_marker notes then pos 0 else a
chips_case TransactionType.table_buy_in notes a = if has_marker notes then pos 0 else a
chips_case TransactionType.table_buy_out notes a = neg a
chips_case _ notes a = pos 0

-- `SUM(…) … WHERE …` over the rows.
unfoldable pub sum_rows : (Transaction → Bool) → (Transaction → ℤ) → List Transaction → ℤ
sum_rows p d [] = pos 0
sum_rows p d (t ∷ ts) = (if p t then d t else pos 0) +ℤ sum_rows p d ts

-- `club_id = $1 AND player_id = $2 AND UPPER(status) = 'COMPLETED'`
unfoldable pub is_mine : ℕ → ℕ → Transaction → Bool
is_mine club player t = t.club_id == club && t.player_id == player && is_completed t.status

unfoldable pub wallet_delta : Transaction → ℤ
wallet_delta t = wallet_case t.txn_type t.notes t.amount

unfoldable pub credit_delta : Transaction → ℤ
credit_delta t = credit_case t.txn_type t.amount

unfoldable pub chips_delta : Transaction → ℤ
chips_delta t = chips_case t.txn_type t.notes t.amount

unfoldable pub wallet_balance : ℕ → ℕ → List Transaction → ℤ
wallet_balance club player = sum_rows (is_mine club player) wallet_delta

unfoldable pub credit_balance : ℕ → ℕ → List Transaction → ℤ
credit_balance club player = sum_rows (is_mine club player) credit_delta

-- The chips since an instant: `… AND created_at >= $3`.
unfoldable pub session_chips : ℕ → ℕ → ℕ → List Transaction → ℤ
session_chips club player since =
    sum_rows (λ t. is_mine club player t && leb since t.created_at) chips_delta
