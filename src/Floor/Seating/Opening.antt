-- ===== src/Floor/Seating/Opening.antt =====
-- The opening balance of assignSeat in waitlist-seating.service.ts: what a player brings to the
-- table, from the ledger, the credit line and the limits of the table, and the rows that record it.
use poker_crm_backend.Base.{
  ℕ, not, Option, none, some, [], ◌++◌, ◌&&◌, ◌==◌, or_else, if◌then◌else◌,
}
use poker_crm_backend.Base.Int.{ℤ, pos, ◌+ℤ◌, ◌-ℤ◌, ltb_ℤ, min_ℤ, max_ℤ}
use poker_crm_backend.Base.Result.{Result, ok, bad_request, ◌>>◌, throw_if}
use poker_crm_backend.Base.Text.{Text, codes}
use poker_crm_backend.Entities.{Db, Table, Player, TransactionType, game_of, post, completed_row}
use poker_crm_backend.Ledger.{pair_marker, wallet_balance, credit_balance}
use poker_crm_backend.Credit.{
  FacilityParams, compute_credit_facility_breakdown, sum_approved_credit_limit_since,
  player_meets_table_min_buy_in,
}
use poker_crm_backend.Floor.Format.{NumberFormat}

-- What moves to the table: cash out of the wallet, and credit of the line.
pub record OpeningChips : Type 0 where
  pub cash : ℤ
  pub credit : ℤ

-- The credit facility of the player as the transaction reads it.
unfoldable pub facility_params : ℕ → Player → Db → FacilityParams
facility_params club p db =
    let used = sum_approved_credit_limit_since club p.id p.credit_enabled_at db.credit_requests in
    record {
      credit_limit = p.credit_limit;
      credit_used_from_approvals =
          if p.credit_enabled then min_ℤ (max_ℤ (pos 0) used) p.credit_limit else pos 0;
      credit_ledger_net = if p.credit_enabled then credit_balance club p.id db.ledger else pos 0;
      available_balance = wallet_balance club p.id db.ledger;
      credit_enabled = p.credit_enabled;
    }

-- `Math.max(0, Number(minBuyIn) || 0)`
unfoldable pub least_buy_in : Table → ℤ
least_buy_in t = max_ℤ (pos 0) (or_else t.min_buy_in (pos 0))

-- `maxBuyInCap`: no cap where the column is null or not positive.
unfoldable pub buy_in_cap : Table → Option ℤ
buy_in_cap t = elim t.max_buy_in [ none ↦ none | some m ↦ if ltb_ℤ (pos 0) m then some m else none ]

-- `Math.min(roomUnderMaxBuy, creditOnLineForCheck, ledgerHeadroomForNewCredit)`
unfoldable pub credit_to_apply : Option ℤ → ℤ → ℤ → ℤ → ℤ
credit_to_apply none cash on_line headroom = min_ℤ on_line headroom
credit_to_apply (some cap) cash on_line headroom =
    min_ℤ (min_ℤ (max_ℤ (pos 0) (cap -ℤ cash)) on_line) headroom

-- The chips for given balances; 0.0001 of a rupee is the unit of an amount.
unfoldable pub opening_chips : FacilityParams → ℤ → Option ℤ → Result OpeningChips
unfolding credit_to_apply
opening_chips p least cap = do
  let on_line = max_ℤ (pos 0) (compute_credit_facility_breakdown p).effective_credit_on_line
  let headroom = max_ℤ (pos 0) (p.credit_limit -ℤ max_ℤ (pos 0) p.credit_ledger_net)
  throw_if (ltb_ℤ p.available_balance (pos 0)) (bad_request 9)
  throw_if (not (player_meets_table_min_buy_in p.available_balance on_line least)) (bad_request 10)
  let cash = max_ℤ (pos 0) p.available_balance
  let credit = credit_to_apply cap cash on_line headroom
  throw_if (ltb_ℤ (pos 0) least && ltb_ℤ (cash +ℤ credit +ℤ pos 1) least) (bad_request 11)
  ok (record { cash = cash; credit = credit })

module _ (fmt : NumberFormat) where
  -- `${effectiveSeat ? `, Seat ${effectiveSeat}` : ''}`
  unfoldable pub seat_text : Option ℕ → Text
  seat_text none = []
  seat_text (some s) = if s == 0 then [] else codes ", Seat " ++ fmt.int_text s

  unfoldable pub place_text : Table → Option ℕ → Text
  unfolding seat_text
  place_text t seat = fmt.int_text t.table_number ++ seat_text seat

  unfoldable pub cash_note : Table → Option ℕ → ℤ → Text
  unfolding place_text
  cash_note t seat a =
      codes "Table buy-in - Table "
      ++ (place_text t seat ++ (codes " (Cash: ₹" ++ (fmt.fixed_text a ++ codes ")")))

  unfoldable pub credit_note : Table → Option ℕ → ℤ → Text
  unfolding place_text
  credit_note t seat a =
      codes "Credit applied on table join - Table "
      ++ (place_text t seat ++ (codes " (Credit: ₹" ++ (fmt.fixed_text a ++ codes ")")))

  unfoldable pub pair_note : Table → Option ℕ → ℤ → Text
  unfolding place_text
  pair_note t seat a =
      (codes "Table buy-in — credit line to table — Table " ++ (place_text t seat ++ codes " ("))
      ++ (pair_marker ++ (codes ") — pairs with credit applied on join ₹" ++ fmt.fixed_text a))

  -- The row of the cash, if there is any.
  unfoldable pub post_cash : ℕ → Player → Table → Option ℕ → ℤ → ℕ → Db → Db
  unfolding cash_note
  post_cash club p t seat cash now db =
      if ltb_ℤ (pos 0) cash
      then post
          (completed_row club p.id p.name cash TransactionType.table_buy_in (game_of t.table_type)
            (cash_note t seat cash) now)
          db
      else db

  -- The row of the credit and the row that is paired with it, if there is any credit.
  unfoldable pub post_credit : ℕ → Player → Table → Option ℕ → ℤ → ℕ → Db → Db
  unfolding credit_note pair_note
  post_credit club p t seat credit now db =
      if ltb_ℤ (pos 0) credit
      then post
          (completed_row club p.id p.name credit TransactionType.table_buy_in (game_of t.table_type)
            (pair_note t seat credit) now)
          (post
            (completed_row club p.id p.name credit TransactionType.credit (game_of t.table_type)
              (credit_note t seat credit) now)
            db)
      else db
