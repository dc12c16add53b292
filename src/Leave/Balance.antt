-- ===== src/Leave/Balance.antt =====
-- The leave policy of src/clubs/services/leave-management.service.ts when applications are approved.
use poker_crm_backend.Base.{
  ℕ, ◌+◌, ◌≡◌, arith, false, List, [], ◌∷◌, ◌==◌, All, Bool-cases, inl, inr,
}
use poker_crm_backend.Base.Result.{ok}
use poker_crm_backend.Base.Text.{Text}
use poker_crm_backend.Base.Rows.{update_where, All-update_where}
use poker_crm_backend.Leave.{LeaveApplication, LeaveDb}
use poker_crm_backend.Leave.Applications.{used_leaves, save_application, approve_leave_application}
use poker_crm_backend.Leave.Overdrawn.{
  AreIdsDistinct, IsReady, approved_row, approve-ready, used_leaves-approved, other-IsReady,
}

-- A row that is saved under its own id leaves the ids distinct.
update_where-AreIdsDistinct :
    (a : LeaveApplication) (rows : List LeaveApplication)
    → AreIdsDistinct rows
    → AreIdsDistinct (update_where (λ (o : LeaveApplication). o.id == a.id) (λ _. a) rows)
unfolding update_where
update_where-AreIdsDistinct a [] h = tt
update_where-AreIdsDistinct a (x ∷ xs) h = elim (Bool-cases (x.id == a.id)) [
  | inl e ↦ rw e (
    All-update_where (λ (o : LeaveApplication). (o.id == a.id) ≡ false)
        (λ (o : LeaveApplication). o.id == a.id) (λ _. a) xs (λ o e' k. absurd (cc))
        (same_id xs (ground arith) h.0),
    update_where-AreIdsDistinct a xs h.1,
  )
  | inr e ↦ rw e (
    All-update_where (λ (o : LeaveApplication). (o.id == x.id) ≡ false)
        (λ (o : LeaveApplication). o.id == a.id) (λ _. a) xs (λ o e' k. ground arith) h.0,
    update_where-AreIdsDistinct a xs h.1,
  )
]
  where
    same_id :
        (os : List LeaveApplication)
        → x.id ≡ a.id
        → All (λ (o : LeaveApplication). (o.id == x.id) ≡ false) os
        → All (λ (o : LeaveApplication). (o.id == a.id) ≡ false) os
    same_id os same each = rw (← same) each

-- Two pending applications of one member that start in the year of a date are both approved by an
-- approver who may decide on them, in a database with distinct ids, and each adds its days to the
-- leave that is used in the year; neither approval asks what the member's policy has left.
pub approve_leave_application-used_leaves :
    (club id id' staff today : ℕ) (role : Text) (by now now' : ℕ) (a b : LeaveApplication)
    (db : LeaveDb)
    → AreIdsDistinct db.applications
    → (id == id') ≡ false
    → IsReady club id staff today role a db
    → IsReady club id' staff today role b db
    → (r : LeaveApplication × LeaveDb) × (r' : LeaveApplication × LeaveDb)
      × (approve_leave_application club id by role now db ≡ ok r)
      × (approve_leave_application club id' by role now' r.1 ≡ ok r')
      × (used_leaves staff today r'.1.applications
          ≡ used_leaves staff today db.applications + a.number_of_days + b.number_of_days)
approve_leave_application-used_leaves club id id' staff today role by now now' a b db keys differ
      ready ready' =
    let db1 = save_application (approved_row by now a) db in
    let later = other-IsReady club id staff today role by now a db ready id' b differ ready' in
    let first = used_leaves-approved club id staff today role by now a db ready keys in
    let keys' : AreIdsDistinct db1.applications =
      (unfold save_application in
        update_where-AreIdsDistinct (approved_row by now a) db.applications keys) in
    let next = used_leaves-approved club id' staff today role by now' b db1 later keys' in
    (
      (approved_row by now a, db1),
      (approved_row by now' b, save_application (approved_row by now' b) db1),
      approve-ready club id staff today role by now a db ready,
      approve-ready club id' staff today role by now' b db1 later,
      omega (arith, first, next),
    )
