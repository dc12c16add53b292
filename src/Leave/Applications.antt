-- ===== src/Leave/Applications.antt =====
-- The life of a leave application in src/clubs/services/leave-management.service.ts. `today` is the
-- date and `now` the instant of the request. The first and the last day are whole days: a date-time,
-- which `new Date` of the source also admits, is not modelled.
use poker_crm_backend.Base.{
  ℕ, ◌+◌, Bool, true, false, not, Option, none, some, List, [], ◌∷◌, ◌&&◌, ◌||◌, ◌==◌, leb, ltb,
  if◌then◌else◌, is_some,
}
use poker_crm_backend.Base.Int.{ℤ, pos, ◌-ℤ◌, ltb_ℤ, max_ℤ}
use poker_crm_backend.Base.Result.{
  Result, ok, bad_request, not_found, forbidden, ◌>>=◌, ◌>>◌, throw_if, or_throw,
}
use poker_crm_backend.Base.Text.{Text, codes, is_empty}
use poker_crm_backend.Base.Rows.{find?, update_where}
use poker_crm_backend.Leave.{
  Staff, LeavePolicy, LeaveStatus, LeaveApplication, LeaveDb, eq_text, is_policy,
  can_approver_handle_applicant,
}
use poker_crm_backend.Leave.Dates.{calculate_working_days, year_start, year_end}

unfoldable pub is_staff : ℕ → ℕ → Staff → Bool
is_staff club id s = s.id == id && s.club_id == club

unfoldable pub is_pending_leave : LeaveStatus → Bool
is_pending_leave LeaveStatus.pending = true
is_pending_leave _ = false

unfoldable pub is_approved_leave : LeaveStatus → Bool
is_approved_leave LeaveStatus.approved = true
is_approved_leave _ = false

-- A pending application of the staff member that overlaps a range of dates.
unfoldable pub overlaps : ℕ → ℕ → ℕ → ℕ → LeaveApplication → Bool
overlaps club staff first last a =
    a.club_id == club
    && a.staff_id == staff
    && is_pending_leave a.status
    && leb a.start_date last
    && leb first a.end_date

-- An approved application of the staff member that starts in the year of a date.
unfoldable pub uses_leave : ℕ → ℕ → LeaveApplication → Bool
uses_leave staff today a =
    a.staff_id == staff
    && is_approved_leave a.status
    && leb (year_start today) a.start_date
    && leb a.start_date (year_end today)

-- `approvedLeaves.reduce((sum, leave) => sum + leave.numberOfDays, 0)`
unfoldable pub used_leaves : ℕ → ℕ → List LeaveApplication → ℕ
used_leaves staff today [] = 0
used_leaves staff today (a ∷ as') =
    (if uses_leave staff today a then a.number_of_days else 0) + used_leaves staff today as'

unfoldable pub remaining_leaves : LeavePolicy → ℕ → ℕ → LeaveDb → ℤ
remaining_leaves policy staff today db =
    pos policy.leaves_per_year -ℤ pos (used_leaves staff today db.applications)

unfoldable pub new_application : ℕ → ℕ → ℕ → ℕ → ℕ → Text → LeaveApplication
new_application id club staff first last reason = record {
  id = id;
  club_id = club;
  staff_id = staff;
  start_date = first;
  end_date = last;
  number_of_days = calculate_working_days first last;
  reason = reason;
  status = LeaveStatus.pending;
  approved_by = none;
  approved_at = none;
  rejection_reason = none;
  rejected_at = none;
}

-- createLeaveApplication. A range without a working day is refused with one of two messages.
unfoldable pub create_leave_application :
    ℕ → ℕ → ℕ → ℕ → Text → ℕ → LeaveDb → Result (LeaveApplication × LeaveDb)
create_leave_application club staff first last reason today db = do
  member ← or_throw (find? (is_staff club staff) db.staff) (not_found 0)
  throw_if (eq_text member.role (codes "Affiliate")) (bad_request 0)
  throw_if (ltb last first) (bad_request 1)
  throw_if (ltb first today) (bad_request 2)
  throw_if (calculate_working_days first last == 0 && first == last) (bad_request 3)
  throw_if (calculate_working_days first last == 0) (bad_request 4)
  throw_if (is_some (find? (overlaps club staff first last) db.applications)) (bad_request 5)
  policy ← or_throw (find? (is_policy club member.role) db.policies) (bad_request 6)
  throw_if
      (ltb_ℤ (remaining_leaves policy staff today db) (pos (calculate_working_days first last)))
      (bad_request 7)
  let application = new_application db.next_id club staff first last reason
  ok (
    application,
    record db { applications = application ∷ db.applications; next_id = db.next_id + 1 },
  )

unfoldable pub is_application : ℕ → ℕ → LeaveApplication → Bool
is_application club id a = a.id == id && a.club_id == club

unfoldable pub find_application : ℕ → ℕ → LeaveDb → Result LeaveApplication
find_application club id db =
    or_throw (find? (is_application club id) db.applications) (not_found 0)

-- `save`
unfoldable pub save_application : LeaveApplication → LeaveDb → LeaveDb
save_application a db = record db {
  applications = update_where (λ (o : LeaveApplication). o.id == a.id) (λ _. a) db.applications;
}

-- `application.staff.role`: the row that the relation joins. A foreign key keeps it there; without it
-- the source fails when it reads the role.
unfoldable pub has_staff_id : ℕ → Staff → Bool
has_staff_id id s = s.id == id

-- The checks that approveLeaveApplication and rejectLeaveApplication share.
unfoldable pub check_decision : ℕ → ℕ → Text → LeaveDb → Result LeaveApplication
check_decision club id approver_role db = do
  a ← find_application club id db
  throw_if (not (is_pending_leave a.status)) (bad_request 0)
  member ← or_throw (find? (has_staff_id a.staff_id) db.staff) (not_found 1)
  throw_if
      (not (can_approver_handle_applicant approver_role member.role)
        && (eq_text member.role (codes "Admin") || eq_text member.role (codes "HR")))
      (forbidden 0)
  throw_if (not (can_approver_handle_applicant approver_role member.role)) (forbidden 1)
  ok a

-- approveLeaveApplication
unfoldable pub approve_leave_application :
    ℕ → ℕ → ℕ → Text → ℕ → LeaveDb → Result (LeaveApplication × LeaveDb)
approve_leave_application club id approver approver_role now db = do
  a ← check_decision club id approver_role db
  let a' = record a {
    status = LeaveStatus.approved;
    approved_by = some approver;
    approved_at = some now;
  }
  ok (a', save_application a' db)

-- `dto.rejectionReason || 'No reason provided'`
unfoldable pub reason_or_none : Option Text → Text
reason_or_none none = codes "No reason provided"
reason_or_none (some r) = if is_empty r then codes "No reason provided" else r

-- rejectLeaveApplication
unfoldable pub reject_leave_application :
    ℕ → ℕ → Text → Option Text → ℕ → LeaveDb → Result (LeaveApplication × LeaveDb)
reject_leave_application club id approver_role reason now db = do
  a ← check_decision club id approver_role db
  let a' = record a {
    status = LeaveStatus.rejected;
    rejection_reason = some (reason_or_none reason);
    rejected_at = some now;
  }
  ok (a', save_application a' db)

-- cancelLeaveApplication, which also returns the status before.
unfoldable pub cancel_leave_application :
    ℕ → ℕ → ℕ → LeaveDb → Result (LeaveApplication × LeaveStatus × LeaveDb)
cancel_leave_application club id staff db = do
  a ← find_application club id db
  throw_if (not (a.staff_id == staff)) (forbidden 0)
  throw_if (not (is_pending_leave a.status)) (bad_request 0)
  let a' = record a { status = LeaveStatus.cancelled }
  ok (a', a.status, save_application a' db)

-- getLeaveBalance: the total, the used and the remaining days.
pub record LeaveBalance : Type 0 where
  pub total_leaves : ℕ
  pub used : ℕ
  pub remaining : ℤ

unfoldable pub balance_of : Option LeavePolicy → ℕ → ℕ → LeaveDb → LeaveBalance
balance_of none staff today db = record { total_leaves = 0; used = 0; remaining = pos 0 }
balance_of (some policy) staff today db = record {
  total_leaves = policy.leaves_per_year;
  used = used_leaves staff today db.applications;
  remaining = max_ℤ (pos 0) (remaining_leaves policy staff today db);
}

unfoldable pub get_leave_balance : ℕ → ℕ → ℕ → LeaveDb → Result LeaveBalance
get_leave_balance club staff today db = do
  member ← or_throw (find? (is_staff club staff) db.staff) (not_found 0)
  ok (balance_of (find? (is_policy club member.role) db.policies) staff today db)
