-- ===== src/Leave.antt =====
-- src/clubs/services/leave-management.service.ts: staff, leave policies and leave applications, and
-- who may decide on an application. A date is a number of days since 1 January 1970.
pub mod Dates
pub mod Applications
pub mod Days
pub mod Kept
pub mod Overdrawn
pub mod Balance
pub mod History
pub mod Apart
pub mod Decided
pub mod Created
use poker_crm_backend.Base.{
  ℕ, ◌+◌, ◌-◌, Bool, true, false, not, Option, none, some, List, [], ◌∷◌, ◌&&◌, ◌||◌, ◌==◌, leb,
  if◌then◌else◌, is_some,
}
use poker_crm_backend.Base.Result.{
  Result, ok, err, bad_request, not_found, ◌>>=◌, ◌>>◌, throw_if, or_throw,
}
use poker_crm_backend.Base.Text.{Text, codes, is_space}
use poker_crm_backend.Base.Rows.{find?, update_where, delete_where}

-- The columns of staff that the service reads.
pub record Staff : Type 0 where
  pub id : ℕ
  pub club_id : ℕ
  pub role : Text

pub record LeavePolicy : Type 0 where
  pub club_id : ℕ
  pub role : Text
  pub leaves_per_year : ℕ
  pub created_by : Option ℕ
  pub updated_by : Option ℕ

pub data LeaveStatus : Type 0 where
  pending approved rejected cancelled : LeaveStatus

pub record LeaveApplication : Type 0 where
  pub id : ℕ
  pub club_id : ℕ
  pub staff_id : ℕ
  pub start_date : ℕ
  pub end_date : ℕ
  pub number_of_days : ℕ
  pub reason : Text
  pub status : LeaveStatus
  pub approved_by : Option ℕ
  pub approved_at : Option ℕ
  pub rejection_reason : Option Text
  pub rejected_at : Option ℕ

pub record LeaveDb : Type 0 where
  pub staff : List Staff
  pub policies : List LeavePolicy
  pub applications : List LeaveApplication
  pub next_id : ℕ

unfoldable pub eq_text : Text → Text → Bool
eq_text [] [] = true
eq_text [] (c ∷ s) = false
eq_text (b ∷ r) [] = false
eq_text (b ∷ r) (c ∷ s) = b == c && eq_text r s

-- ASCII letters of `toUpperCase`.
unfoldable pub upper_code : ℕ → ℕ
upper_code c = if leb b'a' c && leb c b'z' then c - 32 else c

-- normalizeRole: `replace(/[\s_]+/g, '').toUpperCase()`
unfoldable pub normalize_role : Text → Text
unfolding is_space upper_code
normalize_role [] = []
normalize_role (c ∷ s) =
    if is_space c || c == b'_' then normalize_role s else upper_code c ∷ normalize_role s

unfoldable pub is_super_admin_role : Text → Bool
is_super_admin_role role = eq_text (normalize_role role) (codes "SUPERADMIN")

unfoldable pub can_regular_approver_approve : Text → Bool
can_regular_approver_approve role =
    eq_text (normalize_role role) (codes "ADMIN") || eq_text (normalize_role role) (codes "HR")

-- canApproverHandleApplicant
unfoldable pub can_approver_handle_applicant : Text → Text → Bool
can_approver_handle_applicant approver applicant =
    if is_super_admin_role approver
    then true
    else if eq_text (normalize_role applicant) (codes "ADMIN")
        || eq_text (normalize_role applicant) (codes "HR")
    then false
    else can_regular_approver_approve approver

unfoldable pub is_policy : ℕ → Text → LeavePolicy → Bool
is_policy club role p = p.club_id == club && eq_text p.role role

-- createLeavePolicy. A club has one policy for a role, so the row that is found is the one that is
-- changed or removed.
unfoldable pub create_leave_policy : ℕ → Text → ℕ → ℕ → LeaveDb → Result LeaveDb
create_leave_policy club role leaves by db = do
  throw_if (is_some (find? (is_policy club role) db.policies)) (bad_request 0)
  ok record db {
    policies =
        record {
          club_id = club;
          role = role;
          leaves_per_year = leaves;
          created_by = some by;
          updated_by = none;
        }
        ∷ db.policies;
  }

-- `dto.leavesPerYear !== undefined`
unfoldable pub new_leaves : Option ℕ → ℕ → ℕ
new_leaves none old = old
new_leaves (some n) old = n

-- updateLeavePolicy
unfoldable pub update_leave_policy : ℕ → Text → Option ℕ → ℕ → LeaveDb → Result LeaveDb
update_leave_policy club role leaves by db = do
  policy ← or_throw (find? (is_policy club role) db.policies) (not_found 0)
  ok record db {
    policies =
        update_where (is_policy club role)
          (λ (p : LeavePolicy). record p {
            leaves_per_year = new_leaves leaves policy.leaves_per_year;
            updated_by = some by;
          })
          db.policies;
  }

-- deleteLeavePolicy
unfoldable pub delete_leave_policy : ℕ → Text → LeaveDb → Result LeaveDb
delete_leave_policy club role db = do
  policy ← or_throw (find? (is_policy club role) db.policies) (not_found 0)
  ok record db { policies = delete_where (is_policy club role) db.policies }
