-- ===== src/Leave/Decided.antt =====
-- Who decides on a leave application of src/clubs/services/leave-management.service.ts, and that it
-- is decided once.
use poker_crm_backend.Base.{
  ℕ, ◌≡◌, ◌⊎◌, refl, arith, true, false, not, Option, some, ◌&&◌, ◌||◌, ◌==◌, &&-parts, Bool-cases,
  inl, inr,
}
use poker_crm_backend.Base.Result.{
  Error, ok, err, bad_request, not_found, forbidden, throw_if-eq-ok, or_throw-eq-ok, >>=-eq-ok,
  ok-injective,
}
use poker_crm_backend.Base.Text.{Text, codes}
use poker_crm_backend.Base.Rows.{find?, find?-saved, find?-sound}
use poker_crm_backend.Leave.{
  Staff, LeaveApplication, LeaveDb, eq_text, normalize_role, is_super_admin_role,
  can_regular_approver_approve, can_approver_handle_applicant,
}
use poker_crm_backend.Leave.Applications.{
  is_application, find_application, save_application, has_staff_id, is_pending_leave,
  check_decision, approve_leave_application, reject_leave_application, cancel_leave_application,
}

-- The role is ADMIN or HR, in whatever case and with whatever spaces and underscores.
abbrev pub IsAdminOrHr : Text → Type 0
IsAdminOrHr role =
    (eq_text (normalize_role role) (codes "ADMIN") || eq_text (normalize_role role) (codes "HR"))
    ≡ true

abbrev pub IsNeither : Text → Type 0
IsNeither role =
    (eq_text (normalize_role role) (codes "ADMIN") || eq_text (normalize_role role) (codes "HR"))
    ≡ false

-- A super admin decides on every application, an admin and HR on those of the other roles.
abbrev pub MayDecide : Text → Text → Type 0
MayDecide approver applicant =
    (is_super_admin_role approver ≡ true) ⊎ IsAdminOrHr approver × IsNeither applicant

can_approver_handle_applicant_sound :
    (approver applicant : Text)
    → can_approver_handle_applicant approver applicant ≡ true
    → MayDecide approver applicant
unfolding can_approver_handle_applicant can_regular_approver_approve
can_approver_handle_applicant_sound approver applicant h =
    elim (Bool-cases (is_super_admin_role approver)) [
      | inl e ↦ inl e
      | inr e ↦
          elim (Bool-cases (
            eq_text (normalize_role applicant) (codes "ADMIN")
            || eq_text (normalize_role applicant) (codes "HR"))) [
              | inl e' ↦ absurd (ground arith)
              | inr e' ↦ inr (ground arith, e')
            ]
    ]

-- The application was pending, of a member on whom the approver may decide.
pub record IsAllowed (club id : ℕ) (approver : Text) (db : LeaveDb) : Type 0 where
  pub application : LeaveApplication
  pub member : Staff
  pub found : find? (is_application club id) db.applications ≡ some application
  pub was_pending : is_pending_leave application.status ≡ true
  pub is_member : find? (has_staff_id application.staff_id) db.staff ≡ some member
  pub may_decide : MayDecide approver member.role

pub check_decision-IsAllowed :
    (club id : ℕ) (approver : Text) (db : LeaveDb) {a : LeaveApplication}
    → check_decision club id approver db ≡ ok a
    → (w : IsAllowed club id approver db) × (w.application ≡ a)
unfolding check_decision find_application
check_decision-IsAllowed club id approver db {a} h =
    let (b, hb, h1) =
      or_throw-eq-ok (find? (is_application club id) db.applications) (not_found 0) _ h in
    let (waiting, h2) = throw_if-eq-ok (not (is_pending_leave b.status)) (bad_request 0) _ h1 in
    let (m, hm, h3) =
      or_throw-eq-ok (find? (has_staff_id b.staff_id) db.staff) (not_found 1) _ h2 in
    let (_, h4) =
      throw_if-eq-ok
        (not (can_approver_handle_applicant approver m.role)
          && (eq_text m.role (codes "Admin") || eq_text m.role (codes "HR")))
        (forbidden 0) _ h3 in
    let (may, h5) =
      throw_if-eq-ok (not (can_approver_handle_applicant approver m.role)) (forbidden 1) _ h4 in
    (
      record {
        application = b;
        member = m;
        found = hb;
        was_pending = ground arith;
        is_member = hm;
        may_decide = can_approver_handle_applicant_sound approver m.role (ground arith);
      },
      ok-injective b a h5,
    )

-- Every later decision is refused, and so is a cancellation.
pub record IsDecided (club id : ℕ) (db : LeaveDb) : Type 0 where
  pub no_approval :
      (by : ℕ) (role : Text) (now : ℕ)
      → approve_leave_application club id by role now db ≡ err (bad_request 0)
  pub no_rejection :
      (role : Text) (reason : Option Text) (now : ℕ)
      → reject_leave_application club id role reason now db ≡ err (bad_request 0)
  pub no_cancellation :
      (staff : ℕ) → (e : Error) × (cancel_leave_application club id staff db ≡ err e)

closed-IsDecided :
    (club id : ℕ) (db : LeaveDb) (a : LeaveApplication)
    → find? (is_application club id) db.applications ≡ some a
    → is_pending_leave a.status ≡ false
    → IsDecided club id db
unfolding approve_leave_application reject_leave_application cancel_leave_application check_decision
    find_application
closed-IsDecided club id db a h done = record {
  no_approval = λ by role now. rw (h, done) refl;
  no_rejection = λ role reason now. rw (h, done) refl;
  no_cancellation = λ staff. elim (Bool-cases (a.staff_id == staff)) [
    | inl e ↦ (bad_request 0, rw (h, e, done) refl)
    | inr e ↦ (forbidden 0, rw (h, e) refl)
  ];
}

saved-IsDecided :
    (club id : ℕ) (a a' : LeaveApplication) (db : LeaveDb)
    → find? (is_application club id) db.applications ≡ some a
    → a'.id ≡ a.id
    → a'.club_id ≡ a.club_id
    → is_pending_leave a'.status ≡ false
    → IsDecided club id (save_application a' db)
unfolding save_application is_application
saved-IsDecided club id a a' db h same same_club done =
    let mine = find?-sound (is_application club id) db.applications h in
    let (here, _) = &&-parts (a.id == id) (a.club_id == club) mine in
    let weaker : (o : LeaveApplication) → is_application club id o ≡ true → (o.id == a'.id) ≡ true =
      (λ o e. ground arith) in
    closed-IsDecided club id _ a'
      (find?-saved (is_application club id) (λ (o : LeaveApplication). o.id == a'.id) a'
        db.applications weaker (simp (same, same_club) mine) h)
      done

-- An approval that succeeds is of a pending application, by a super admin, or by an admin or HR where
-- the applicant is neither; and every later approval, rejection and cancellation of the application
-- is refused.
pub approve_leave_application-IsDecided :
    (club id by : ℕ) (role : Text) (now : ℕ) (db : LeaveDb) {r : LeaveApplication × LeaveDb}
    → approve_leave_application club id by role now db ≡ ok r
    → IsAllowed club id role db × IsDecided club id r.1
unfolding approve_leave_application is_pending_leave
approve_leave_application-IsDecided club id by role now db {r} h =
    let (a, ha, h1) = >>=-eq-ok (check_decision club id role db) _ h in
    let (w, same) = check_decision-IsAllowed club id role db ha in
    rw (← ok-injective _ r h1)
      (w, saved-IsDecided club id a _ db (rw same at w.found) refl refl refl)
