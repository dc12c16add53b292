-- ===== src/Leave/Overdrawn.antt =====
-- What an approval of src/clubs/services/leave-management.service.ts does to the leave balance.
use mathlib.Core.Path.{subst}
use poker_crm_backend.Base.{
  ℕ, ◌+◌, ◌≡◌, refl, sym, ◌∙◌, arith, true, false, some, List, [], ◌∷◌, ◌==◌, leb, All, Memᴰ,
  &&-parts,
}
use poker_crm_backend.Base.Result.{ok}
use poker_crm_backend.Base.Text.{Text}
use poker_crm_backend.Base.Rows.{
  find?, update_where, find?-mem, find?-sound, find?-update_other, All-mem,
}
use poker_crm_backend.Leave.{
  Staff, LeaveApplication, LeaveStatus, LeaveDb, can_approver_handle_applicant,
}
use poker_crm_backend.Leave.Dates.{year_start, year_end}
use poker_crm_backend.Leave.Applications.{
  is_pending_leave, is_approved_leave, uses_leave, used_leaves, is_application, find_application,
  save_application, has_staff_id, check_decision, approve_leave_application,
}

-- No two applications have one id.
abbrev pub AreIdsDistinct : List LeaveApplication → Type 0
AreIdsDistinct [] = Unit
AreIdsDistinct (a ∷ as') =
    All (λ (o : LeaveApplication). (o.id == a.id) ≡ false) as' × AreIdsDistinct as'

abbrev with_application :
    LeaveApplication → LeaveApplication → List LeaveApplication → List LeaveApplication
with_application a a' = update_where (λ (o : LeaveApplication). o.id == a.id) (λ _. a')

with_application-absent :
    (a a' : LeaveApplication) (rows : List LeaveApplication)
    → All (λ (o : LeaveApplication). (o.id == a.id) ≡ false) rows
    → with_application a a' rows ≡ rows
unfolding update_where
with_application-absent a a' [] h = refl
with_application-absent a a' (o ∷ os) h = rw (h.0, with_application-absent a a' os h.1) refl

eq_sym : (m n : ℕ) → (m == n) ≡ false → (n == m) ≡ false
eq_sym m n h = ground arith

eq_same : (n : ℕ) → (n == n) ≡ true
eq_same n = ground arith

module _ (staff today : ℕ) (a a' : LeaveApplication) (was : uses_leave staff today a ≡ false)
    (is : uses_leave staff today a' ≡ true) where
  used_leaves-head :
      (rows : List LeaveApplication)
      → All (λ (o : LeaveApplication). (o.id == a.id) ≡ false) rows
      → used_leaves staff today (with_application a a' (a ∷ rows))
        ≡ used_leaves staff today (a ∷ rows) + a'.number_of_days
  unfolding used_leaves update_where
  used_leaves-head rows h =
      rw (eq_same a.id, with_application-absent a a' rows h, was, is) (omega arith)

  -- The days of a row that starts to count are added to the leave used.
  used_leaves-with_application :
      (rows : List LeaveApplication)
      → AreIdsDistinct rows
      → Memᴰ a rows
      → used_leaves staff today (with_application a a' rows)
        ≡ used_leaves staff today rows + a'.number_of_days
  unfolding used_leaves update_where
  used_leaves-with_application [] keys m = elim m [ ]
  used_leaves-with_application (o ∷ os) keys (Memᴰ.head e) =
      subst
        (λ (x : LeaveApplication).
          used_leaves staff today (with_application a a' (x ∷ os))
          ≡ used_leaves staff today (x ∷ os) + a'.number_of_days)
        e
        (used_leaves-head os (
          subst
            (λ (x : LeaveApplication). All (λ (y : LeaveApplication). (y.id == x.id) ≡ false) os)
            (sym e) keys.0))
  used_leaves-with_application (o ∷ os) keys (Memᴰ.tail m) =
      let other = eq_sym a.id o.id (All-mem _ os keys.0 m) in
      rw (other, used_leaves-with_application os keys.1 m) (omega arith)

-- A pending application that the approver may approve, and that starts in the year of a date.
pub record IsReady (club id staff today : ℕ) (role : Text) (a : LeaveApplication) (db : LeaveDb)
    : Type 0 where
  pub found : find? (is_application club id) db.applications ≡ some a
  pub was_pending : a.status ≡ LeaveStatus.pending
  pub owner : (a.staff_id == staff) ≡ true
  pub member : Staff
  pub is_member : find? (has_staff_id a.staff_id) db.staff ≡ some member
  pub may_decide : can_approver_handle_applicant role member.role ≡ true
  pub in_year :
      (leb (year_start today) a.start_date ≡ true) × (leb a.start_date (year_end today) ≡ true)

abbrev pub approved_row : ℕ → ℕ → LeaveApplication → LeaveApplication
approved_row by now a = record a {
  status = LeaveStatus.approved;
  approved_by = some by;
  approved_at = some now;
}

module _ (club id staff today : ℕ) (role : Text) (by now : ℕ) (a : LeaveApplication) (db : LeaveDb)
    (ready : IsReady club id staff today role a db) where
  pub approve-ready :
      approve_leave_application club id by role now db
      ≡ ok (approved_row by now a, save_application (approved_row by now a) db)
  unfolding approve_leave_application check_decision find_application is_pending_leave
  approve-ready = rw (ready.found, ready.was_pending, ready.is_member, ready.may_decide) refl

  waits : uses_leave staff today a ≡ false
  unfolding uses_leave is_approved_leave
  waits = rw (ready.was_pending, ready.owner) refl

  counts : uses_leave staff today (approved_row by now a) ≡ true
  unfolding uses_leave is_approved_leave
  counts = rw (ready.owner, ready.in_year.0, ready.in_year.1) refl

  pub used_leaves-approved :
      AreIdsDistinct db.applications
      → used_leaves staff today (save_application (approved_row by now a) db).applications
        ≡ used_leaves staff today db.applications + a.number_of_days
  unfolding save_application
  used_leaves-approved keys =
      used_leaves-with_application staff today a (approved_row by now a) waits counts
        db.applications keys (find?-mem _ db.applications ready.found)

  -- Another application is as ready as before.
  pub other-IsReady :
      (id' : ℕ) (b : LeaveApplication)
      → (id == id') ≡ false
      → IsReady club id' staff today role b db
      → IsReady club id' staff today role b (save_application (approved_row by now a) db)
  unfolding save_application is_application
  other-IsReady id' b differ r = record {
    found =
        find?-update_other (is_application club id')
          (λ (o : LeaveApplication). o.id == (approved_row by now a).id) (approved_row by now a)
          db.applications away (λ o e. apart o e)
        ∙ r.found;
    was_pending = r.was_pending;
    owner = r.owner;
    member = r.member;
    is_member = r.is_member;
    may_decide = r.may_decide;
    in_year = r.in_year;
  }
    where
      here : (a.id == id) ≡ true
      here =
          (&&-parts (a.id == id) (a.club_id == club) (find?-sound _ db.applications ready.found)).0

      away : is_application club id' (approved_row by now a) ≡ false
      away = ground (arith, here)

      apart : (o : LeaveApplication) → (o.id == a.id) ≡ true → is_application club id' o ≡ false
      apart o e = ground (arith, here)
