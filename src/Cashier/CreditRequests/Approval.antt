-- ===== src/Cashier/CreditRequests/Approval.antt =====
-- The approval of a credit request in src/clubs/services/credit-requests.service.ts, with the rows
-- that it writes for a seated player.
use poker_crm_backend.Base.{ℕ, true, not, Option, none, some, ◌++◌, if◌then◌else◌}
use poker_crm_backend.Base.Int.{ℤ, pos, ltb_ℤ, min_ℤ}
use poker_crm_backend.Base.Result.{
  Result, ok, bad_request, not_found, conflict, ◌>>=◌, ◌>>◌, throw_if, or_throw,
}
use poker_crm_backend.Base.Text.{Text, codes, is_empty, trim, take_text, no_bars}
use poker_crm_backend.Base.Rows.{find?}
use poker_crm_backend.Entities.{
  Db, WaitlistEntry, TransactionType, CreditRequest, CreditRequestStatus, is_approved_credit,
  is_denied_credit, completed_row, post,
}
use poker_crm_backend.Ledger.{pair_marker}
use poker_crm_backend.Floor.Format.{NumberFormat}
use poker_crm_backend.Floor.Seating.Assign.{is_player}
use poker_crm_backend.Cashier.Settlement.{seats_player, numbered_game}
use poker_crm_backend.Cashier.CreditRequests.{max_credit, find_credit_request, save_credit_request}

-- `String(approvedByDisplay || 'Staff').replace(/\|/g, ' ').trim().substring(0, 120) || 'Staff'`
unfoldable pub approver_text : Option Text → Text
approver_text none = codes "Staff"
approver_text (some s) =
    let t = take_text 120 (trim (no_bars s)) in if is_empty t then codes "Staff" else t

unfoldable pub seated_number : Option WaitlistEntry → Option ℕ
seated_number none = none
seated_number (some e) = e.table_number

unfoldable pub approved_name : Text → Text
approved_name s = if is_empty s then codes "Player" else trim s

module _ (fmt : NumberFormat) where
  unfoldable pub approved_note : ℕ → Text → ℤ → Text
  approved_note n by a =
      codes "Credit approved while seated — Table "
      ++ (fmt.int_text n
          ++ (codes " — approved by " ++ (by ++ (codes " (₹" ++ (fmt.amount_text a ++ codes ")")))))

  unfoldable pub approved_pair_note : ℕ → ℤ → Text
  approved_pair_note n a =
      (codes "Table buy-in — credit line to table — Table " ++ (fmt.int_text n ++ codes " ("))
      ++ (pair_marker ++ (codes ") — pairs with approved credit ₹" ++ fmt.amount_text a))

  -- The two rows of a credit that is drawn while the player is seated.
  unfoldable pub draw_credit : ℕ → CreditRequest → ℤ → ℕ → Text → ℕ → Db → Db
  draw_credit club r a number by now db =
      let game = numbered_game club (some number) db.tables in
      let name = approved_name r.player_name in
      post
        (completed_row club r.player_id name a TransactionType.table_buy_in game
          (approved_pair_note number a) now)
        (post
          (completed_row club r.player_id name a TransactionType.credit game
            (approved_note number by a) now)
          db)

  -- insertApprovedCreditToTableLedger
  unfoldable pub insert_approved_credit_to_table_ledger :
      ℕ → CreditRequest → Option Text → ℕ → Db → ℤ × Db
  insert_approved_credit_to_table_ledger club r by now db =
      let draw = min_ℤ r.amount r.limit in
      elim (seated_number (find? (seats_player club r.player_id) db.entries)) [
        | none ↦ (pos 0, db)
        | some n ↦
            if ltb_ℤ (pos 0) draw
            then (draw, draw_credit club r draw n (approver_text by) now db)
            else (pos 0, db)
      ]

  -- The limit of an approval: the given one, between 0 and the maximum, or the requested amount.
  unfoldable pub approved_limit : Option ℤ → ℤ → Result ℤ
  approved_limit none a = ok a
  approved_limit (some l) a = do
    throw_if (ltb_ℤ l (pos 0)) (bad_request 1)
    throw_if (ltb_ℤ max_credit l) (bad_request 2)
    ok l

  -- approve
  unfoldable pub approve_credit_request :
      ℕ → ℕ → Option ℤ → Option Text → ℕ → Db → Result (CreditRequest × Db)
  approve_credit_request club id limit by now db = do
    request ← find_credit_request club id db
    throw_if (is_approved_credit request.status) (conflict 0)
    throw_if (is_denied_credit request.status) (conflict 1)
    player ← or_throw (find? (is_player club request.player_id) db.players) (not_found 1)
    throw_if (not player.credit_enabled) (bad_request 0)
    l ← approved_limit limit request.amount
    let request' = record request {
      limit = l;
      status = CreditRequestStatus.approved;
      visible_to_player = true;
      updated_at = now;
    }
    let db' = save_credit_request request' db
    ok (request', (insert_approved_credit_to_table_ledger club request' by now db').1)
