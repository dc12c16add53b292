-- ===== src/Cashier/CreditRequests.antt =====
-- src/clubs/services/credit-requests.service.ts.
pub mod Approval
pub mod Decided
pub mod Draws
pub mod Sound
use poker_crm_backend.Base.{
  ℕ, ◌+◌, Bool, true, false, not, Option, none, some, List, [], ◌∷◌, ◌++◌, ◌&&◌, ◌==◌, eq_opt,
  is_some, ltb, if◌then◌else◌,
}
use poker_crm_backend.Base.Int.{ℤ, pos, ltb_ℤ, leb_ℤ, min_ℤ}
use poker_crm_backend.Base.Result.{
  Result, ok, err, bad_request, not_found, forbidden, conflict, ◌>>=◌, ◌>>◌, throw_if, or_throw,
}
use poker_crm_backend.Base.Text.{Text, codes, is_empty, text_length, trim, take_text, no_bars}
use poker_crm_backend.Base.Rows.{find?, update_where}
use poker_crm_backend.Entities.{
  Db, Table, Player, WaitlistEntry, TransactionType, GameType, CreditRequest, CreditRequestStatus,
  is_pending_credit, is_approved_credit, is_denied_credit, is_seated, completed_row, post,
}
use poker_crm_backend.Ledger.{pair_marker}
use poker_crm_backend.Floor.Format.{NumberFormat}
use poker_crm_backend.Floor.Waitlist.{club_exists}
use poker_crm_backend.Floor.Seating.Assign.{is_player}
use poker_crm_backend.Cashier.Settlement.{seats_player, numbered_game}

-- A number of a request body: absent, not a number, or an amount.
pub data JsNumber : Type 0 where
  missing : JsNumber
  not_a_number : JsNumber
  amount : ℤ → JsNumber

-- ₹100,000,000
abbrev pub max_credit : ℤ
max_credit = pos 1_000_000_000_000

-- The body of create. `player_key` is the text of the id, and `player_id` the player that the
-- trimmed text names.
pub record NewCreditRequest : Type 0 where
  pub player_key : Text
  pub player_id : ℕ
  pub player_name : Text
  pub amount : JsNumber
  pub notes : Option Text

unfoldable pub check_amount : JsNumber → Result ℤ
check_amount missing = err (bad_request 4)
check_amount not_a_number = err (bad_request 5)
check_amount (JsNumber.amount a) = do
  throw_if (leb_ℤ a (pos 0)) (bad_request 6)
  throw_if (ltb_ℤ max_credit a) (bad_request 7)
  ok a

unfoldable pub long_notes : Option Text → Bool
long_notes none = false
long_notes (some s) = ltb 500 (text_length (trim s))

-- `notes?.trim() || null`
unfoldable pub trimmed_notes : Option Text → Option Text
trimmed_notes none = none
trimmed_notes (some s) = if is_empty (trim s) then none else some (trim s)

-- A pending credit request of the player in the club.
unfoldable pub asks_credit : ℕ → ℕ → CreditRequest → Bool
asks_credit club player r = r.club_id == club && r.player_id == player && is_pending_credit r.status

unfoldable pub new_credit_request : ℕ → ℕ → NewCreditRequest → ℤ → ℕ → CreditRequest
new_credit_request id club d a now = record {
  id = id;
  player_id = d.player_id;
  player_name = trim d.player_name;
  amount = a;
  status = CreditRequestStatus.pending;
  visible_to_player = true;
  limit = a;
  notes = trimmed_notes d.notes;
  rejection_reason = none;
  club_id = club;
  updated_at = now;
}

-- create
unfoldable pub create_credit_request : ℕ → NewCreditRequest → ℕ → Db → Result (CreditRequest × Db)
create_credit_request club d now db = do
  throw_if (is_empty (trim d.player_key)) (bad_request 0)
  throw_if (ltb 100 (text_length (trim d.player_key))) (bad_request 1)
  throw_if (is_empty (trim d.player_name)) (bad_request 2)
  throw_if (ltb 200 (text_length (trim d.player_name))) (bad_request 3)
  a ← check_amount d.amount
  throw_if (long_notes d.notes) (bad_request 8)
  throw_if (not (club_exists club db)) (not_found 0)
  player ← or_throw (find? (is_player club d.player_id) db.players) (not_found 1)
  throw_if (not player.credit_enabled) (forbidden 0)
  throw_if (is_some (find? (asks_credit club d.player_id) db.credit_requests)) (conflict 0)
  let request = new_credit_request db.next_id club d a now
  ok (
    request,
    record db { credit_requests = request ∷ db.credit_requests; next_id = db.next_id + 1 },
  )

unfoldable pub is_credit_request : ℕ → ℕ → CreditRequest → Bool
is_credit_request club id r = r.id == id && r.club_id == club

-- findOne
unfoldable pub find_credit_request : ℕ → ℕ → Db → Result CreditRequest
find_credit_request club id db =
    or_throw (find? (is_credit_request club id) db.credit_requests) (not_found 0)

-- `repo.save(request)`, which also moves `updated_at`.
unfoldable pub save_credit_request : CreditRequest → Db → Db
save_credit_request r db = record db {
  credit_requests = update_where (λ (o : CreditRequest). o.id == r.id) (λ _. r) db.credit_requests;
}

-- deny
unfoldable pub deny_credit_request : ℕ → ℕ → Option Text → ℕ → Db → Result (CreditRequest × Db)
deny_credit_request club id reason now db = do
  request ← find_credit_request club id db
  throw_if (is_denied_credit request.status) (conflict 0)
  throw_if (is_approved_credit request.status) (conflict 1)
  let request' = record request {
    status = CreditRequestStatus.denied;
    visible_to_player = true;
    limit = pos 0;
    rejection_reason = trimmed_notes reason;
    updated_at = now;
  }
  ok (request', save_credit_request request' db)

-- updateVisibility
unfoldable pub update_visibility : ℕ → ℕ → Bool → ℕ → Db → Result (CreditRequest × Db)
update_visibility club id visible now db = do
  request ← find_credit_request club id db
  let request' = record request { visible_to_player = visible; updated_at = now }
  ok (request', save_credit_request request' db)

-- The checks of updateLimit on the new limit.
unfoldable pub check_limit : JsNumber → Result ℤ
check_limit missing = err (bad_request 0)
check_limit not_a_number = err (bad_request 1)
check_limit (JsNumber.amount l) = do
  throw_if (ltb_ℤ l (pos 0)) (bad_request 2)
  throw_if (ltb_ℤ max_credit l) (bad_request 3)
  ok l

-- updateLimit
unfoldable pub update_limit : ℕ → ℕ → JsNumber → ℕ → Db → Result (CreditRequest × Db)
update_limit club id limit now db = do
  l ← check_limit limit
  request ← find_credit_request club id db
  throw_if (not (is_approved_credit request.status)) (bad_request 4)
  let request' = record request { limit = l; updated_at = now }
  ok (request', save_credit_request request' db)
