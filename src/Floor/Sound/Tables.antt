-- ===== src/Floor/Sound/Tables.antt =====
-- The operations on tables of src/clubs/services/waitlist-seating.service.ts overfill no table.
use poker_crm_backend.Base.{ℕ, ◌≡◌, arith, not, some, ltb, is_some}
use poker_crm_backend.Base.Int.{pos, pos_part, ltb_ℤ}
use poker_crm_backend.Base.Result.{
  ok, bad_request, not_found, throw_if-eq-ok, or_throw-eq-ok, ok-injective,
}
use poker_crm_backend.Base.Text.{Text}
use poker_crm_backend.Base.Rows.{find?, find?-mem, All-delete_where, All-mem}
use poker_crm_backend.Entities.{Db, Table, TableStatus, is_occupied}
use poker_crm_backend.Floor.Waitlist.{club_exists}
use poker_crm_backend.Floor.Tables.{
  NewTable, TablePatch, create_table, update_table, delete_table, update_table_status,
  reset_table_seats, update_table_notes, get_table, is_table, save_table, is_negative, is_above,
  has_number, new_table, too_few_seats, below_seated, frees_seated, patched_table,
}
use poker_crm_backend.Floor.Seating.Capacity.{
  IsWithin, save_table-AllWithin, patched_table-IsWithin,
}
use poker_crm_backend.Floor.Sound.{IsSoundDb}

pub create_table-IsSound :
    (club : ℕ) (d : NewTable) (db : Db) {r : Table × Db}
    → create_table club d db ≡ ok r
    → IsSoundDb db
    → IsSoundDb r.1
unfolding create_table
create_table-IsSound club d db {r} h s =
    let (_, h1) = throw_if-eq-ok (ltb_ℤ d.table_number (pos 1)) (bad_request 0) _ h in
    let (_, h2) = throw_if-eq-ok (ltb_ℤ d.max_seats (pos 1)) (bad_request 1) _ h1 in
    let (_, h3) = throw_if-eq-ok (is_negative d.min_buy_in) (bad_request 2) _ h2 in
    let (_, h4) = throw_if-eq-ok (is_negative d.max_buy_in) (bad_request 3) _ h3 in
    let (_, h5) = throw_if-eq-ok (is_above d.min_buy_in d.max_buy_in) (bad_request 4) _ h4 in
    let (_, h6) = throw_if-eq-ok (not (club_exists club db)) (not_found 0) _ h5 in
    let (_, h7) =
      throw_if-eq-ok (is_some (find? (has_number club (pos_part d.table_number)) db.tables))
        (bad_request 5) _ h6 in
    rw (← ok-injective _ r h7)
      (record { within = (unfold new_table in omega arith, s.within); places = s.places })

-- A table of the database is within its seats.
found_table-IsWithin :
    (club id : ℕ) (t : Table) (db : Db)
    → find? (is_table club id) db.tables ≡ some t
    → IsSoundDb db
    → IsWithin t
found_table-IsWithin club id t db found s =
    All-mem IsWithin db.tables s.within (find?-mem (is_table club id) db.tables found)

saved_table-IsSound :
    (t : Table) (db : Db) → IsWithin t → IsSoundDb db → IsSoundDb (save_table t db)
saved_table-IsSound t db w s = record {
  within = save_table-AllWithin t db w s.within;
  places = unfold save_table in s.places;
}

pub update_table-IsSound :
    (club id : ℕ) (d : TablePatch) (db : Db) {r : Table × Db}
    → update_table club id d db ≡ ok r
    → IsSoundDb db
    → IsSoundDb r.1
unfolding update_table get_table
update_table-IsSound club id d db {r} h s =
    let (t, found, h1) = or_throw-eq-ok (find? (is_table club id) db.tables) (not_found 0) _ h in
    let (some_seats, h2) = throw_if-eq-ok (too_few_seats d.max_seats) (bad_request 0) _ h1 in
    let (enough, h3) =
      throw_if-eq-ok (below_seated d.max_seats t.current_seats) (bad_request 1) _ h2 in
    let (_, h4) = throw_if-eq-ok (frees_seated d.status t.current_seats) (bad_request 2) _ h3 in
    let (_, h5) = throw_if-eq-ok (is_negative d.min_buy_in) (bad_request 3) _ h4 in
    let (_, h6) = throw_if-eq-ok (is_negative d.max_buy_in) (bad_request 4) _ h5 in
    let (_, h7) = throw_if-eq-ok (is_above d.min_buy_in d.max_buy_in) (bad_request 5) _ h6 in
    rw (← ok-injective _ r h7) (
      saved_table-IsSound (patched_table d t) db
        (patched_table-IsWithin d t some_seats enough (found_table-IsWithin club id t db found s))
        s)

pub delete_table-IsSound :
    (club id : ℕ) (db : Db) {r : Db} → delete_table club id db ≡ ok r → IsSoundDb db → IsSoundDb r
unfolding delete_table get_table
delete_table-IsSound club id db {r} h s =
    let (t, found, h1) = or_throw-eq-ok (find? (is_table club id) db.tables) (not_found 0) _ h in
    let (_, h2) = throw_if-eq-ok (ltb 0 t.current_seats) (bad_request 0) _ h1 in
    let (_, h3) = throw_if-eq-ok (is_occupied t.status) (bad_request 1) _ h2 in
    rw (← ok-injective _ r h3)
      (record { within = All-delete_where IsWithin _ db.tables s.within; places = s.places })

module _ (club id : ℕ) (db : Db) (s : IsSoundDb db) where
  pub update_table_status-IsSound :
      (status : TableStatus) {r : Table × Db}
      → update_table_status club id status db ≡ ok r
      → IsSoundDb r.1
  unfolding update_table_status get_table
  update_table_status-IsSound status {r} h =
      let (t, found, h1) = or_throw-eq-ok (find? (is_table club id) db.tables) (not_found 0) _ h in
      rw (← ok-injective _ r h1)
        (saved_table-IsSound _ db (found_table-IsWithin club id t db found s) s)

  pub reset_table_seats-IsSound :
      {r : Table × Db} → reset_table_seats club id db ≡ ok r → IsSoundDb r.1
  unfolding reset_table_seats get_table
  reset_table_seats-IsSound {r} h =
      let (t, found, h1) = or_throw-eq-ok (find? (is_table club id) db.tables) (not_found 0) _ h in
      rw (← ok-injective _ r h1) (saved_table-IsSound _ db (omega arith) s)

  pub update_table_notes-IsSound :
      (notes : Text) {r : Table × Db} → update_table_notes club id notes db ≡ ok r → IsSoundDb r.1
  unfolding update_table_notes get_table
  update_table_notes-IsSound notes {r} h =
      let (t, found, h1) = or_throw-eq-ok (find? (is_table club id) db.tables) (not_found 0) _ h in
      rw (← ok-injective _ r h1)
        (saved_table-IsSound _ db (found_table-IsWithin club id t db found s) s)
