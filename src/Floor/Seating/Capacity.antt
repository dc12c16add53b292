-- ===== src/Floor/Seating/Capacity.antt =====
-- No table is overfilled by assignSeat, unseatPlayer and the table operations of
-- src/clubs/services/waitlist-seating.service.ts.
use poker_crm_backend.Base.{ℕ, ◌+◌, ◌≤◌, ◌≡◌, arith, false, All, Option-cases, inl, inr}
use poker_crm_backend.Base.Rows.{find?, find?-mem, All-update_where, All-mem}
use poker_crm_backend.Entities.{Db, Table, WaitlistEntry}
use poker_crm_backend.Floor.Tables.{
  save_table, has_number, TablePatch, patch_seats, patched_table, too_few_seats, below_seated,
}
use poker_crm_backend.Floor.Seating.Checks.{filled_table}
use poker_crm_backend.Floor.Seating.Assign.{vacated_table, vacate}

-- At most as many seats are taken as the table has.
abbrev pub IsWithin : Table → Type 0
IsWithin t = t.current_seats ≤ t.max_seats

abbrev pub AllWithin : Db → Type 0
AllWithin db = All IsWithin db.tables

pub save_table-AllWithin :
    (t : Table) (db : Db) → IsWithin t → AllWithin db → AllWithin (save_table t db)
unfolding save_table
save_table-AllWithin t db w h = All-update_where IsWithin _ _ db.tables (λ _ _ _. w) h

filled_table-IsWithin :
    (entry : WaitlistEntry) (table : Table)
    → table.current_seats + entry.party_size ≤ table.max_seats
    → IsWithin (filled_table entry table)
unfolding filled_table
filled_table-IsWithin entry table h = h

vacated_table-IsWithin :
    (entry : WaitlistEntry) (table : Table) → IsWithin table → IsWithin (vacated_table entry table)
unfolding vacated_table
vacated_table-IsWithin entry table h = omega arith

-- The ways in which the operations change the tables.
pub seat-AllWithin :
    (entry : WaitlistEntry) (table : Table) (db : Db)
    → table.current_seats + entry.party_size ≤ table.max_seats
    → AllWithin db
    → AllWithin (save_table (filled_table entry table) db)
seat-AllWithin entry table db room w =
    save_table-AllWithin (filled_table entry table) db (filled_table-IsWithin entry table room) w

pub vacate-AllWithin :
    (club number : ℕ) (entry : WaitlistEntry) (db : Db)
    → AllWithin db
    → AllWithin (vacate (find? (has_number club number) db.tables) entry db)
unfolding vacate
vacate-AllWithin club number entry db w =
    elim (Option-cases (find? (has_number club number) db.tables)) [
      | inl e ↦ rw e w
      | inr (t, e) ↦ rw e (
          save_table-AllWithin (vacated_table entry t) db
            (vacated_table-IsWithin entry t
              (All-mem IsWithin db.tables w (find?-mem _ db.tables e)))
            w)
    ]

pub patched_table-IsWithin :
    (d : TablePatch) (t : Table)
    → too_few_seats d.max_seats ≡ false
    → below_seated d.max_seats t.current_seats ≡ false
    → IsWithin t
    → IsWithin (patched_table d t)
unfolding patched_table patch_seats too_few_seats below_seated
patched_table-IsWithin d t some_seats enough w = ground arith
