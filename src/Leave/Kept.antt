-- ===== src/Leave/Kept.antt =====
-- Every request to src/clubs/services/leave-management.service.ts keeps the pending applications
-- apart.
use poker_crm_backend.Base.{ℕ, ◌≡◌, refl, not, Option, List, [], ◌∷◌, ◌==◌, All, Memᴰ, is_some}
use poker_crm_backend.Base.Result.{
  ok, bad_request, not_found, forbidden, throw_if-eq-ok, or_throw-eq-ok, >>=-eq-ok, ok-injective,
}
use poker_crm_backend.Base.Text.{Text}
use poker_crm_backend.Base.Rows.{find?}
use poker_crm_backend.Leave.{
  LeaveApplication, LeaveStatus, LeaveDb, is_policy, create_leave_policy, update_leave_policy,
  delete_leave_policy,
}
use poker_crm_backend.Leave.Applications.{
  is_pending_leave, find_application, check_decision, create_leave_application,
  approve_leave_application, reject_leave_application, cancel_leave_application,
}
use poker_crm_backend.Leave.Created.{create_leave_application-IsDue}
use poker_crm_backend.Leave.History.{
  LeaveRequest, create_policy, update_policy, delete_policy, apply, approve, reject, cancel_leave,
  whole, second, third, serve_leave, run_leave,
}
use poker_crm_backend.Leave.Apart.{IsFreeOf, AreApart, AreApartIn, or_same-AreApart, save-AreApart}

apply-AreApart :
    (club staff first last : ℕ) (reason : Text) (today : ℕ) (db : LeaveDb)
    (r : LeaveApplication × LeaveDb)
    → AreApartIn db
    → create_leave_application club staff first last reason today db ≡ ok r
    → AreApartIn r.1
apply-AreApart club staff first last reason today db r apart h =
    let (due, rows) = create_leave_application-IsDue club staff first last reason today db h in
    rw rows (free db.applications due.apart, apart)
  where
    free :
        (bs : List LeaveApplication)
        → ((b : LeaveApplication) → Memᴰ b bs → IsFreeOf r.0 b)
        → All (IsFreeOf r.0) bs
    free [] each = tt
    free (b ∷ bs) each = (each b (Memᴰ.head refl), free bs (λ c m. each c (Memᴰ.tail m)))

approve-AreApart :
    (club id by : ℕ) (role : Text) (now : ℕ) (db : LeaveDb) (r : LeaveApplication × LeaveDb)
    → AreApartIn db
    → approve_leave_application club id by role now db ≡ ok r
    → AreApartIn r.1
unfolding approve_leave_application is_pending_leave
approve-AreApart club id by role now db r apart h =
    let (a, _, h1) = >>=-eq-ok (check_decision club id role db) _ h in
    rw (← ok-injective _ r h1) (save-AreApart _ db refl apart)

reject-AreApart :
    (club id : ℕ) (role : Text) (reason : Option Text) (now : ℕ) (db : LeaveDb)
    (r : LeaveApplication × LeaveDb)
    → AreApartIn db
    → reject_leave_application club id role reason now db ≡ ok r
    → AreApartIn r.1
unfolding reject_leave_application is_pending_leave
reject-AreApart club id role reason now db r apart h =
    let (a, _, h1) = >>=-eq-ok (check_decision club id role db) _ h in
    rw (← ok-injective _ r h1) (save-AreApart _ db refl apart)

cancel-AreApart :
    (club id staff : ℕ) (db : LeaveDb) (r : LeaveApplication × LeaveStatus × LeaveDb)
    → AreApartIn db
    → cancel_leave_application club id staff db ≡ ok r
    → AreApartIn r.2
unfolding cancel_leave_application is_pending_leave
cancel-AreApart club id staff db r apart h =
    let (a, _, h1) = >>=-eq-ok (find_application club id db) _ h in
    let (_, h2) = throw_if-eq-ok (not (a.staff_id == staff)) (forbidden 0) _ h1 in
    let (_, h3) = throw_if-eq-ok (not (is_pending_leave a.status)) (bad_request 0) _ h2 in
    rw (← ok-injective _ r h3) (save-AreApart _ db refl apart)

create_policy-AreApart :
    (club : ℕ) (role : Text) (n by : ℕ) (db r : LeaveDb)
    → AreApartIn db
    → create_leave_policy club role n by db ≡ ok r
    → AreApartIn r
unfolding create_leave_policy
create_policy-AreApart club role n by db r apart h =
    let (_, h1) =
      throw_if-eq-ok (is_some (find? (is_policy club role) db.policies)) (bad_request 0) _ h in
    rw (← ok-injective _ r h1) apart

update_policy-AreApart :
    (club : ℕ) (role : Text) (n : Option ℕ) (by : ℕ) (db r : LeaveDb)
    → AreApartIn db
    → update_leave_policy club role n by db ≡ ok r
    → AreApartIn r
unfolding update_leave_policy
update_policy-AreApart club role n by db r apart h =
    let (p, _, h1) = or_throw-eq-ok (find? (is_policy club role) db.policies) (not_found 0) _ h in
    rw (← ok-injective _ r h1) apart

delete_policy-AreApart :
    (club : ℕ) (role : Text) (db r : LeaveDb)
    → AreApartIn db
    → delete_leave_policy club role db ≡ ok r
    → AreApartIn r
unfolding delete_leave_policy
delete_policy-AreApart club role db r apart h =
    let (p, _, h1) = or_throw-eq-ok (find? (is_policy club role) db.policies) (not_found 0) _ h in
    rw (← ok-injective _ r h1) apart

serve_leave-AreApart :
    (q : LeaveRequest) (db : LeaveDb) → AreApartIn db → AreApartIn (serve_leave q db)
unfolding serve_leave
serve_leave-AreApart (create_policy club role n by) db apart =
    or_same-AreApart whole db _ apart (λ r. create_policy-AreApart club role n by db r apart)
serve_leave-AreApart (update_policy club role n by) db apart =
    or_same-AreApart whole db _ apart (λ r. update_policy-AreApart club role n by db r apart)
serve_leave-AreApart (delete_policy club role) db apart =
    or_same-AreApart whole db _ apart (λ r. delete_policy-AreApart club role db r apart)
serve_leave-AreApart (apply club staff first last reason today) db apart =
    or_same-AreApart second db _ apart
      (λ r. apply-AreApart club staff first last reason today db r apart)
serve_leave-AreApart (approve club id by role now) db apart =
    or_same-AreApart second db _ apart (λ r. approve-AreApart club id by role now db r apart)
serve_leave-AreApart (reject club id role reason now) db apart =
    or_same-AreApart second db _ apart (λ r. reject-AreApart club id role reason now db r apart)
serve_leave-AreApart (cancel_leave club id staff) db apart =
    or_same-AreApart third db _ apart (λ r. cancel-AreApart club id staff db r apart)

-- Whatever sequence of requests the service is given, refused ones included, no two pending
-- applications of one staff member in one club share a date, if none did before.
pub run_leave-AreApart :
    (qs : List LeaveRequest) (db : LeaveDb)
    → AreApart db.applications
    → AreApart (run_leave qs db).applications
unfolding run_leave
run_leave-AreApart [] db apart = apart
run_leave-AreApart (q ∷ qs) db apart =
    run_leave-AreApart qs (serve_leave q db) (serve_leave-AreApart q db apart)
