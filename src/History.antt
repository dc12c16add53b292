-- ===== src/History.antt =====
-- The requests that the floor and the cashier serve (src/clubs/services), and the database after a
-- sequence of them. A request that throws writes nothing: every check of the services stands before
-- the first write, or inside the transaction.
pub mod Soundness
use poker_crm_backend.Base.{ℕ, Bool, Option, List, [], ◌∷◌}
use poker_crm_backend.Base.Int.{ℤ}
use poker_crm_backend.Base.Text.{Text}
use poker_crm_backend.Base.Result.{Result, ok, err, ◌>>=◌}
use poker_crm_backend.Entities.{Db, TableStatus}
use poker_crm_backend.Floor.Format.{NumberFormat}
use poker_crm_backend.Floor.Waitlist.{
  NewEntry, EntryPatch, create_waitlist_entry, update_waitlist_entry, cancel_waitlist_entry,
  delete_waitlist_entry,
}
use poker_crm_backend.Floor.Tables.{
  NewTable, TablePatch, create_table, update_table, delete_table, update_table_status,
  reset_table_seats, update_table_notes,
}
use poker_crm_backend.Floor.Seating.Assign.{assign_seat, unseat_player}
use poker_crm_backend.Cashier.BuyIn.{approve_buyin_request, reject_buyin_request}
use poker_crm_backend.Cashier.Settlement.{JsAmount}
use poker_crm_backend.Cashier.BuyOut.{
  approve_buyout_request, reject_buyout_request, settle_all_players_on_table,
  settle_staff_manual_table_buyout,
}
use poker_crm_backend.Cashier.CreditRequests.{
  NewCreditRequest, JsNumber, create_credit_request, deny_credit_request, update_visibility,
  update_limit,
}
use poker_crm_backend.Cashier.CreditRequests.Approval.{approve_credit_request}

-- A request, with its club, its arguments and its instant. A seat is assigned after checks on a
-- database that may be out of date.
pub data Request : Type 0 where
  create_entry : ℕ → NewEntry → ℕ → Request
  update_entry : ℕ → ℕ → EntryPatch → Request
  cancel_entry : ℕ → ℕ → ℕ → Request
  delete_entry : ℕ → ℕ → Request
  assign : ℕ → ℕ → ℕ → ℕ → Option ℕ → ℕ → Db → Request
  unseat : ℕ → ℕ → Bool → ℕ → Request
  add_table : ℕ → NewTable → Request
  change_table : ℕ → ℕ → TablePatch → Request
  remove_table : ℕ → ℕ → Request
  set_table_status : ℕ → ℕ → TableStatus → Request
  reset_seats : ℕ → ℕ → Request
  set_table_notes : ℕ → ℕ → Text → Request
  approve_buyin : ℕ → ℕ → Option ℤ → ℕ → ℕ → Request
  reject_buyin : ℕ → ℕ → Option Text → ℕ → ℕ → Request
  approve_buyout : ℕ → ℕ → Option ℤ → ℕ → ℕ → Request
  reject_buyout : ℕ → ℕ → Option Text → ℕ → ℕ → Request
  settle_table : ℕ → ℕ → List (ℕ × ℤ) → Option ℤ → Option ℕ → ℕ → Request
  staff_buyout : ℕ → Option ℕ → ℤ → ℤ → Option Text → ℕ → Request
  ask_credit : ℕ → NewCreditRequest → ℕ → Request
  approve_credit : ℕ → ℕ → Option ℤ → Option Text → ℕ → Request
  deny_credit : ℕ → ℕ → Option Text → ℕ → Request
  show_credit : ℕ → ℕ → Bool → ℕ → Request
  limit_credit : ℕ → ℕ → JsNumber → ℕ → Request

abbrev pub saved {ℓ} : {A : Type ℓ} → Result (A × Db) → Result Db
saved (ok r) = ok r.1
saved (err e) = err e

-- The database that the next request finds.
unfoldable pub after : Result Db → Db → Db
after (ok db') db = db'
after (err _) db = db

module _ (fmt : NumberFormat) (numeric : ℤ → JsAmount) where
  -- The database after one request.
  unfoldable pub serve : Request → Db → Result Db
  serve (create_entry club d now) db = saved (create_waitlist_entry club d now db)
  serve (update_entry club id d) db = saved (update_waitlist_entry club id d db)
  serve (cancel_entry club id now) db = saved (cancel_waitlist_entry club id now db)
  serve (delete_entry club id) db = delete_waitlist_entry club id db
  serve (assign club entry table by seat now before) db =
      saved (assign_seat fmt club entry table by seat now before db)
  serve (unseat club id requeue now) db = saved (unseat_player club id requeue now db)
  serve (add_table club d) db = saved (create_table club d db)
  serve (change_table club id d) db = saved (update_table club id d db)
  serve (remove_table club id) db = delete_table club id db
  serve (set_table_status club id status) db = saved (update_table_status club id status db)
  serve (reset_seats club id) db = saved (reset_table_seats club id db)
  serve (set_table_notes club id notes) db = saved (update_table_notes club id notes db)
  serve (approve_buyin club id amount user now) db =
      saved (approve_buyin_request fmt club id amount user now db)
  serve (reject_buyin club id reason user now) db = reject_buyin_request club id reason user now db
  serve (approve_buyout club id amount user now) db =
      saved (approve_buyout_request fmt numeric club id amount user now db)
  serve (reject_buyout club id reason user now) db =
      reject_buyout_request club id reason user now db
  serve (settle_table club id settlements rake by now) db =
      ok (settle_all_players_on_table fmt club id settlements rake by now db)
  serve (staff_buyout club player table amount reason now) db =
      saved (settle_staff_manual_table_buyout fmt club player table amount reason now db)
  serve (ask_credit club d now) db = saved (create_credit_request club d now db)
  serve (approve_credit club id limit by now) db =
      saved (approve_credit_request fmt club id limit by now db)
  serve (deny_credit club id reason now) db = saved (deny_credit_request club id reason now db)
  serve (show_credit club id visible now) db = saved (update_visibility club id visible now db)
  serve (limit_credit club id limit now) db = saved (update_limit club id limit now db)

  -- A sequence of requests.
  unfoldable pub run : List Request → Db → Db
  run [] db = db
  run (r ∷ rs) db = run rs (after (serve r db) db)
