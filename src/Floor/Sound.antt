-- ===== src/Floor/Sound.antt =====
-- What the operations of src/clubs/services/waitlist-seating.service.ts keep true of the tables and
-- the waitlist: no table is overfilled, and no two entries sit at one place.
pub mod Tables
pub mod Seating
use poker_crm_backend.Base.{
  ℕ, ◌+◌, ◌≤◌, ◌≡◌, ◌≢◌, refl, sym, ◌∙◌, arith, Bool, true, false, not, Option, none, some, List,
  [], ◌∷◌, All, ◌&&◌, ◌==◌, &&-parts, ltb, Memᴰ, is_some, Option-cases, if◌then◌else◌, inl, inr,
}
use poker_crm_backend.Base.Int.{ℤ, pos, pos_part, ltb_ℤ}
use poker_crm_backend.Base.Result.{
  Result, ok, err, bad_request, not_found, ◌>>=◌, ◌>>◌, throw_if, or_throw, throw_if-eq-ok,
  or_throw-eq-ok, ok-injective,
}
use poker_crm_backend.Base.Text.{Text, is_empty, trim}
use poker_crm_backend.Base.Rows.{
  find?, find?-mem, find?-sound, update_where, All-update_where, All-delete_where, All-mem,
}
use poker_crm_backend.Entities.{
  Db, Table, TableStatus, WaitlistEntry, WaitlistStatus, is_seated, is_cancelled, is_occupied,
}
use poker_crm_backend.Floor.Format.{NumberFormat}
use poker_crm_backend.Floor.Waitlist.{
  NewEntry, EntryPatch, create_waitlist_entry, update_waitlist_entry, cancel_waitlist_entry,
  delete_waitlist_entry, get_waitlist_entry, is_entry, save_entry, bad_party, bad_priority,
  club_exists, already_waiting, new_entry, blank_name, below_one, patched, non_zero,
}
use poker_crm_backend.Floor.Tables.{
  NewTable, TablePatch, create_table, update_table, delete_table, update_table_status,
  reset_table_seats, update_table_notes, get_table, is_table, save_table, is_negative, is_above,
  has_number, new_table, too_few_seats, below_seated, frees_seated, patched_table,
}
use poker_crm_backend.Floor.Seating.Checks.{effective_seat, filled_table, seated_entry}
use poker_crm_backend.Floor.Seating.Assign.{assign_seat, unseat_player, unseated_entry, vacate}
use poker_crm_backend.Floor.Seating.Inversion.{
  assign_seat-locked, assign_seat_locked-Assigned, seated_rows,
}
use poker_crm_backend.Floor.Seating.Capacity.{
  IsWithin, AllWithin, save_table-AllWithin, seat-AllWithin, vacate-AllWithin,
  patched_table-IsWithin,
}
use poker_crm_backend.Floor.Seating.Places.{
  SitsAt, ArePlacesDistinct, keep-ArePlacesDistinct, replace-ArePlacesDistinct,
  cons-ArePlacesDistinct, delete-ArePlacesDistinct, seated-ArePlacesDistinct,
}

-- No table of the database is overfilled, and no two of its entries sit at one place.
pub record IsSound (tables : List Table) (entries : List WaitlistEntry) : Type 0 where
  pub within : All IsWithin tables
  pub places : ArePlacesDistinct entries

abbrev pub IsSoundDb : Db → Type 0
IsSoundDb db = IsSound db.tables db.entries

pub create_waitlist_entry-IsSound :
    (club : ℕ) (d : NewEntry) (now : ℕ) (db : Db) {r : WaitlistEntry × Db}
    → create_waitlist_entry club d now db ≡ ok r
    → IsSoundDb db
    → IsSoundDb r.1
unfolding create_waitlist_entry
create_waitlist_entry-IsSound club d now db {r} h s =
    let (_, h1) = throw_if-eq-ok (is_empty (trim d.player_name)) (bad_request 0) _ h in
    let (_, h2) = throw_if-eq-ok (bad_party d.party_size) (bad_request 1) _ h1 in
    let (_, h3) = throw_if-eq-ok (bad_priority d.priority) (bad_request 2) _ h2 in
    let (_, h4) = throw_if-eq-ok (not (club_exists club db)) (not_found 0) _ h3 in
    let (_, h5) = throw_if-eq-ok (already_waiting club d.player_id db) (bad_request 3) _ h4 in
    rw (← ok-injective _ r h5) (record {
      within = s.within;
      places =
          cons-ArePlacesDistinct (new_entry db.next_id club d now) db.entries
            (unfold new_entry in cc) s.places;
    })

-- The row that was read is written back in a version that sits nowhere new.
pub saved_entry-IsSound :
    (club id : ℕ) (e e' : WaitlistEntry) (db : Db)
    → find? (is_entry club id) db.entries ≡ some e
    → e'.id ≡ e.id
    → ((c n s : ℕ) → SitsAt c n s e' → SitsAt c n s e)
    → IsSoundDb db
    → IsSoundDb (save_entry e' db)
unfolding save_entry
saved_entry-IsSound club id e e' db found same stays s = record {
  within = s.within;
  places =
      keep-ArePlacesDistinct e e' db.entries (find?-mem (is_entry club id) db.entries found) same
        stays s.places;
}

pub update_waitlist_entry-IsSound :
    (club id : ℕ) (d : EntryPatch) (db : Db) {r : WaitlistEntry × Db}
    → update_waitlist_entry club id d db ≡ ok r
    → IsSoundDb db
    → IsSoundDb r.1
unfolding update_waitlist_entry get_waitlist_entry
update_waitlist_entry-IsSound club id d db {r} h s =
    let (e, found, h1) = or_throw-eq-ok (find? (is_entry club id) db.entries) (not_found 0) _ h in
    let (_, h2) = throw_if-eq-ok (blank_name d.player_name) (bad_request 0) _ h1 in
    let (_, h3) = throw_if-eq-ok (below_one d.party_size) (bad_request 1) _ h2 in
    let (_, h4) = throw_if-eq-ok (bad_priority d.priority) (bad_request 2) _ h3 in
    rw (← ok-injective _ r h4) (
      saved_entry-IsSound club id e (patched d e) db found (unfold patched in refl)
        (λ c n k t. record {
          in_club = t.in_club;
          is_seated = t.is_seated;
          at_table = t.at_table;
          at_seat = t.at_seat;
        })
        s)

pub cancel_waitlist_entry-IsSound :
    (club id now : ℕ) (db : Db) {r : WaitlistEntry × Db}
    → cancel_waitlist_entry club id now db ≡ ok r
    → IsSoundDb db
    → IsSoundDb r.1
unfolding cancel_waitlist_entry get_waitlist_entry
cancel_waitlist_entry-IsSound club id now db {r} h s =
    let (e, found, h1) = or_throw-eq-ok (find? (is_entry club id) db.entries) (not_found 0) _ h in
    let (_, h2) = throw_if-eq-ok (is_seated e.status) (bad_request 0) _ h1 in
    let (_, h3) = throw_if-eq-ok (is_cancelled e.status) (bad_request 1) _ h2 in
    rw (← ok-injective _ r h3)
      (saved_entry-IsSound club id e _ db found refl (λ c n k t. let clash = t.is_seated in cc) s)

pub delete_waitlist_entry-IsSound :
    (club id : ℕ) (db : Db) {r : Db}
    → delete_waitlist_entry club id db ≡ ok r
    → IsSoundDb db
    → IsSoundDb r
unfolding delete_waitlist_entry get_waitlist_entry
delete_waitlist_entry-IsSound club id db {r} h s =
    let (e, found, h1) = or_throw-eq-ok (find? (is_entry club id) db.entries) (not_found 0) _ h in
    let (_, h2) = throw_if-eq-ok (is_seated e.status) (bad_request 0) _ h1 in
    rw (← ok-injective _ r h2)
      (record { within = s.within; places = delete-ArePlacesDistinct _ db.entries s.places })
