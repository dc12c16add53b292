-- ===== src/Leave/History.antt =====
-- Sequences of requests to src/clubs/services/leave-management.service.ts, refused ones included.
use poker_crm_backend.Base.{ℕ, Option, List, [], ◌∷◌}
use poker_crm_backend.Base.Result.{Result, ok, err}
use poker_crm_backend.Base.Text.{Text}
use poker_crm_backend.Leave.{LeaveDb, create_leave_policy, update_leave_policy, delete_leave_policy}
use poker_crm_backend.Leave.Applications.{
  create_leave_application, approve_leave_application, reject_leave_application,
  cancel_leave_application,
}

-- One request, with its arguments in the order of the operation.
pub data LeaveRequest : Type 0 where
  create_policy : ℕ → Text → ℕ → ℕ → LeaveRequest
  update_policy : ℕ → Text → Option ℕ → ℕ → LeaveRequest
  delete_policy : ℕ → Text → LeaveRequest
  apply : ℕ → ℕ → ℕ → ℕ → Text → ℕ → LeaveRequest
  approve : ℕ → ℕ → ℕ → Text → ℕ → LeaveRequest
  reject : ℕ → ℕ → Text → Option Text → ℕ → LeaveRequest
  cancel_leave : ℕ → ℕ → ℕ → LeaveRequest

-- A refused request leaves the database.
abbrev pub or_same {ℓ} : {A : Type ℓ} → (A → LeaveDb) → LeaveDb → Result A → LeaveDb
or_same state db (ok a) = state a
or_same state db (err e) = db

abbrev pub whole : LeaveDb → LeaveDb
whole db = db

abbrev pub second {ℓ} : {A : Type ℓ} → A × LeaveDb → LeaveDb
second r = r.1

abbrev pub third {ℓ κ} : {A : Type ℓ} {B : Type κ} → A × B × LeaveDb → LeaveDb
third r = r.2

unfoldable pub serve_leave : LeaveRequest → LeaveDb → LeaveDb
serve_leave (create_policy club role n by) db =
    or_same whole db (create_leave_policy club role n by db)
serve_leave (update_policy club role n by) db =
    or_same whole db (update_leave_policy club role n by db)
serve_leave (delete_policy club role) db = or_same whole db (delete_leave_policy club role db)
serve_leave (apply club staff first last reason today) db =
    or_same second db (create_leave_application club staff first last reason today db)
serve_leave (approve club id by role now) db =
    or_same second db (approve_leave_application club id by role now db)
serve_leave (reject club id role reason now) db =
    or_same second db (reject_leave_application club id role reason now db)
serve_leave (cancel_leave club id staff) db =
    or_same third db (cancel_leave_application club id staff db)

unfoldable pub run_leave : List LeaveRequest → LeaveDb → LeaveDb
run_leave [] db = db
run_leave (q ∷ qs) db = run_leave qs (serve_leave q db)
