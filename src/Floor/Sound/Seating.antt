-- ===== src/Floor/Sound/Seating.antt =====
-- assignSeat and unseatPlayer of src/clubs/services/waitlist-seating.service.ts overfill no table and
-- seat no two players at one place.
use poker_crm_backend.Base.{
  ℕ, ◌≡◌, ◌≢◌, refl, arith, Bool, true, false, Option, none, some, if◌then◌else◌,
}
use poker_crm_backend.Base.Result.{
  ok, bad_request, not_found, throw_if-eq-ok, or_throw-eq-ok, ok-injective,
}
use poker_crm_backend.Base.Rows.{find?, find?-sound}
use poker_crm_backend.Entities.{Db, Table, WaitlistEntry, WaitlistStatus, is_seated}
use poker_crm_backend.Floor.Format.{NumberFormat}
use poker_crm_backend.Floor.Waitlist.{get_waitlist_entry, is_entry, save_entry, non_zero}
use poker_crm_backend.Floor.Tables.{save_table, has_number}
use poker_crm_backend.Floor.Seating.Checks.{effective_seat}
use poker_crm_backend.Floor.Seating.Assign.{assign_seat, unseat_player, unseated_entry, vacate}
use poker_crm_backend.Floor.Seating.Inversion.{
  assign_seat-locked, assign_seat_locked-Assigned, seated_rows,
}
use poker_crm_backend.Floor.Seating.Capacity.{seat-AllWithin, vacate-AllWithin}
use poker_crm_backend.Floor.Seating.Places.{seated-ArePlacesDistinct}
use poker_crm_backend.Floor.Sound.{IsSoundDb, saved_entry-IsSound}

pub assign_seat-IsSound :
    (fmt : NumberFormat) (club entry_id table_id seated_by : ℕ) (seat : Option ℕ) (now : ℕ)
    (before db : Db) {r : WaitlistEntry × Db}
    → assign_seat fmt club entry_id table_id seated_by seat now before db ≡ ok r
    → IsSoundDb db
    → IsSoundDb r.1
unfolding save_entry is_entry
assign_seat-IsSound fmt club entry_id table_id seated_by seat now before db {r} h s =
    let a =
      assign_seat_locked-Assigned fmt club entry_id table_id seated_by seat now db
        (assign_seat-locked fmt club entry_id table_id seated_by seat now before db h) in
    let (chips, _, _, tables, entries) = seated_rows a in
    let own = find?-sound (is_entry club entry_id) db.entries a.entry_found in
    let in_club : a.entry.club_id ≡ club = ground arith in
    rw (tables, entries)
      (record {
        within = seat-AllWithin a.entry a.table db a.allowed.has_room s.within;
        places =
            seated-ArePlacesDistinct club a.table a.entry (effective_seat seat a.entry) seated_by
              now db.entries in_club a.allowed.seat_free s.places;
      })

vacate_entries :
    (o : Option Table) (e : WaitlistEntry) (db : Db) → (vacate o e db).entries ≡ db.entries
unfolding vacate save_table
vacate_entries none e db = refl
vacate_entries (some t) e db = refl

unseated-away :
    (requeue : Bool) (now : ℕ) (e : WaitlistEntry)
    → (unseated_entry requeue now e).status ≢ WaitlistStatus.seated
unfolding unseated_entry
unseated-away true now e h = cc
unseated-away false now e h = cc

pub unseat_player-IsSound :
    (club id : ℕ) (requeue : Bool) (now : ℕ) (db : Db) {r : WaitlistEntry × Db}
    → unseat_player club id requeue now db ≡ ok r
    → IsSoundDb db
    → IsSoundDb r.1
unfolding unseat_player get_waitlist_entry
unseat_player-IsSound club id requeue now db {r} h s =
    let (e, found, h1) = or_throw-eq-ok (find? (is_entry club id) db.entries) (not_found 0) _ h in
    let (_, h2) =
      throw_if-eq-ok (if is_seated e.status then false else true) (bad_request 0) _ h1 in
    let (number, _, h3) = or_throw-eq-ok (non_zero e.table_number) (bad_request 1) _ h2 in
    let db1 = vacate (find? (has_number club number) db.tables) e db in
    let same = vacate_entries (find? (has_number club number) db.tables) e db in
    rw (← ok-injective _ r h3) (
      saved_entry-IsSound club id e (unseated_entry requeue now e) db1 (rw same found)
        (unfold unseated_entry in refl)
        (λ c n k t. absurd (unseated-away requeue now e t.is_seated))
        (record { within = vacate-AllWithin club number e db s.within; places = rw same s.places }))
