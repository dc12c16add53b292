-- ===== src/History/Soundness.antt =====
-- Every sequence of requests to the services of src/clubs/services leaves the floor sound.
use poker_crm_backend.Base.{◌≡◌, refl, List, [], ◌∷◌}
use poker_crm_backend.Base.Int.{ℤ}
use poker_crm_backend.Base.Result.{Result, ok, err}
use poker_crm_backend.Entities.{Db}
use poker_crm_backend.Floor.Format.{NumberFormat}
use poker_crm_backend.Floor.Sound.{
  IsSoundDb, create_waitlist_entry-IsSound, update_waitlist_entry-IsSound,
  cancel_waitlist_entry-IsSound, delete_waitlist_entry-IsSound,
}
use poker_crm_backend.Floor.Sound.Tables.{
  create_table-IsSound, update_table-IsSound, delete_table-IsSound, update_table_status-IsSound,
  reset_table_seats-IsSound, update_table_notes-IsSound,
}
use poker_crm_backend.Floor.Sound.Seating.{assign_seat-IsSound, unseat_player-IsSound}
use poker_crm_backend.Cashier.Settlement.{JsAmount}
use poker_crm_backend.Cashier.Sound.{
  approve_buyout_request-IsSound, reject_buyout_request-IsSound,
  settle_all_players_on_table-IsSound, settle_staff_manual_table_buyout-IsSound,
  approve_buyin_request-IsSound, reject_buyin_request-IsSound,
}
use poker_crm_backend.Cashier.CreditRequests.Sound.{
  create_credit_request-IsSound, approve_credit_request-IsSound, deny_credit_request-IsSound,
  update_visibility-IsSound, update_limit-IsSound,
}
use poker_crm_backend.History.{Request, saved, serve, after, run}

-- A result whose success is sound leaves a sound database behind.
after-IsSound :
    (m : Result Db) (db : Db)
    → ((db' : Db) → m ≡ ok db' → IsSoundDb db')
    → IsSoundDb db
    → IsSoundDb (after m db)
unfolding after
after-IsSound (ok db') db keep s = keep db' refl
after-IsSound (err e) db keep s = s

saved-IsSound :
    {A : Type 0} (m : Result (A × Db)) (db : Db)
    → ((r : A × Db) → m ≡ ok r → IsSoundDb r.1)
    → IsSoundDb db
    → IsSoundDb (after (saved m) db)
unfolding after
saved-IsSound (ok r) db keep s = keep r refl
saved-IsSound (err e) db keep s = s

module _ (fmt : NumberFormat) (numeric : ℤ → JsAmount) where
  serve-IsSound :
      (q : Request) (db : Db) → IsSoundDb db → IsSoundDb (after (serve fmt numeric q db) db)
  unfolding serve
  serve-IsSound (Request.create_entry club d now) db s =
      saved-IsSound _ db (λ _ h. create_waitlist_entry-IsSound club d now db h s) s
  serve-IsSound (Request.update_entry club id d) db s =
      saved-IsSound _ db (λ _ h. update_waitlist_entry-IsSound club id d db h s) s
  serve-IsSound (Request.cancel_entry club id now) db s =
      saved-IsSound _ db (λ _ h. cancel_waitlist_entry-IsSound club id now db h s) s
  serve-IsSound (Request.delete_entry club id) db s =
      after-IsSound _ db (λ _ h. delete_waitlist_entry-IsSound club id db h s) s
  serve-IsSound (Request.assign club entry table by seat now before) db s =
      saved-IsSound _ db (λ _ h. assign_seat-IsSound fmt club entry table by seat now before db h s)
        s
  serve-IsSound (Request.unseat club id requeue now) db s =
      saved-IsSound _ db (λ _ h. unseat_player-IsSound club id requeue now db h s) s
  serve-IsSound (Request.add_table club d) db s =
      saved-IsSound _ db (λ _ h. create_table-IsSound club d db h s) s
  serve-IsSound (Request.change_table club id d) db s =
      saved-IsSound _ db (λ _ h. update_table-IsSound club id d db h s) s
  serve-IsSound (Request.remove_table club id) db s =
      after-IsSound _ db (λ _ h. delete_table-IsSound club id db h s) s
  serve-IsSound (Request.set_table_status club id status) db s =
      saved-IsSound _ db (λ _ h. update_table_status-IsSound club id db s status h) s
  serve-IsSound (Request.reset_seats club id) db s =
      saved-IsSound _ db (λ _ h. reset_table_seats-IsSound club id db s h) s
  serve-IsSound (Request.set_table_notes club id notes) db s =
      saved-IsSound _ db (λ _ h. update_table_notes-IsSound club id db s notes h) s
  serve-IsSound (Request.approve_buyin club id amount user now) db s =
      saved-IsSound _ db (λ _ h. approve_buyin_request-IsSound fmt club id amount user now db h s) s
  serve-IsSound (Request.reject_buyin club id reason user now) db s =
      after-IsSound _ db (λ _ h. reject_buyin_request-IsSound club id reason user now db h s) s
  serve-IsSound (Request.approve_buyout club id amount user now) db s =
      saved-IsSound _ db
        (λ _ h. approve_buyout_request-IsSound fmt numeric club id amount user now db h s) s
  serve-IsSound (Request.reject_buyout club id reason user now) db s =
      after-IsSound _ db (λ _ h. reject_buyout_request-IsSound club id reason user now db h s) s
  serve-IsSound (Request.settle_table club id settlements rake by now) db s =
      unfold after in settle_all_players_on_table-IsSound fmt club id settlements rake by now db s
  serve-IsSound (Request.staff_buyout club player table amount reason now) db s =
      saved-IsSound _ db
        (λ _ h.
          settle_staff_manual_table_buyout-IsSound fmt club player table amount reason now db h s)
        s
  serve-IsSound (Request.ask_credit club d now) db s =
      saved-IsSound _ db (λ _ h. create_credit_request-IsSound club d now db h s) s
  serve-IsSound (Request.approve_credit club id limit by now) db s =
      saved-IsSound _ db (λ _ h. approve_credit_request-IsSound fmt club id limit by now db h s) s
  serve-IsSound (Request.deny_credit club id reason now) db s =
      saved-IsSound _ db (λ _ h. deny_credit_request-IsSound club id reason now db h s) s
  serve-IsSound (Request.show_credit club id visible now) db s =
      saved-IsSound _ db (λ _ h. update_visibility-IsSound club id visible now db h s) s
  serve-IsSound (Request.limit_credit club id limit now) db s =
      saved-IsSound _ db (λ _ h. update_limit-IsSound club id limit now db h s) s

  -- From a database in which no table has more seats taken than it has and no two seated entries
  -- share a seat of a table, every sequence of requests, successful or refused, and whatever out of
  -- date database a seating looked at first, leads to a database of that kind.
  pub run-IsSound : (rs : List Request) (db : Db) → IsSoundDb db → IsSoundDb (run fmt numeric rs db)
  unfolding run
  run-IsSound [] db s = s
  run-IsSound (r ∷ rs) db s = run-IsSound rs _ (serve-IsSound r db s)
