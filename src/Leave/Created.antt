-- ===== src/Leave/Created.antt =====
-- What createLeaveApplication of src/clubs/services/leave-management.service.ts lets through.
use poker_crm_backend.Base.{
  leb, Bool, ℕ, ◌+◌, ◌-◌, ◌≤◌, ◌≡◌, refl, arith, false, Option, none, some, ◌∷◌, ◌&&◌, ◌==◌, ltb,
  is_some, Memᴰ,
}
use poker_crm_backend.Base.Int.{pos, ltb_ℤ, not_ltb_ℤ, int_laws}
use poker_crm_backend.Base.Result.{
  ok, bad_request, not_found, throw_if-eq-ok, or_throw-eq-ok, ok-injective,
}
use poker_crm_backend.Base.Text.{Text, codes}
use poker_crm_backend.Base.Rows.{find?, find?-complete}
use poker_crm_backend.Leave.{
  Staff, LeavePolicy, LeaveStatus, LeaveApplication, LeaveDb, eq_text, is_policy,
}
use poker_crm_backend.Leave.Dates.{calculate_working_days, calculate_off_days}
use poker_crm_backend.Leave.Applications.{
  is_staff, overlaps, used_leaves, remaining_leaves, new_application, create_leave_application,
}
use poker_crm_backend.Leave.Days.{calculate_working_days_lem}
use poker_crm_backend.Leave.Applications.{is_pending_leave}

-- Two pending applications of one member of a club have a date in common.
abbrev pub share_date : ℕ → LeaveApplication → LeaveApplication → Bool
share_date date a b =
    is_pending_leave a.status
    && is_pending_leave b.status
    && a.club_id == b.club_id
    && a.staff_id == b.staff_id
    && leb a.start_date date
    && leb date a.end_date
    && leb b.start_date date
    && leb date b.end_date

overlaps-share_date :
    (a b : LeaveApplication) (date : ℕ)
    → overlaps a.club_id a.staff_id a.start_date a.end_date b ≡ false
    → share_date date a b ≡ false
unfolding overlaps
overlaps-share_date a b date h = ground arith

-- What holds of an application that is accepted.
pub record IsDue (club staff today : ℕ) (a : LeaveApplication) (db : LeaveDb) : Type 0 where
  pub member : Staff
  pub policy : LeavePolicy
  pub is_member : find? (is_staff club staff) db.staff ≡ some member
  pub no_affiliate : eq_text member.role (codes "Affiliate") ≡ false
  pub has_policy : find? (is_policy club member.role) db.policies ≡ some policy
  pub is_pending : a.status ≡ LeaveStatus.pending
  pub owner : (a.club_id ≡ club) × (a.staff_id ≡ staff)
  pub in_order : (today ≤ a.start_date) × (a.start_date ≤ a.end_date)
  pub works : 1 ≤ a.number_of_days
  pub counted :
      a.number_of_days + calculate_off_days a.start_date a.end_date ≡ a.end_date + 1 - a.start_date
  pub balance : used_leaves staff today db.applications + a.number_of_days ≤ policy.leaves_per_year
  pub apart :
      (b : LeaveApplication) → Memᴰ b db.applications → (date : ℕ) → share_date date a b ≡ false

is_some-none {ℓ} : {A : Type ℓ} (o : Option A) → is_some o ≡ false → o ≡ none
is_some-none none h = refl
is_some-none (some a) h = cc

-- A leave application that is accepted is pending, belongs to a staff member of the club who is no
-- affiliate, starts today or later and does not end before it starts. It counts at least one working
-- day, and with the days off the whole range; together with the leave already approved in the year it
-- is within the policy of the member's role; and it has no date in common with a pending application
-- of the member. It is put before the others, which stay.
pub create_leave_application-IsDue :
    (club staff first last : ℕ) (reason : Text) (today : ℕ) (db : LeaveDb)
    {r : LeaveApplication × LeaveDb}
    → create_leave_application club staff first last reason today db ≡ ok r
    → IsDue club staff today r.0 db × (r.1.applications ≡ r.0 ∷ db.applications)
unfolding create_leave_application remaining_leaves new_application
create_leave_application-IsDue club staff first last reason today db {r} h =
    let days = calculate_working_days first last in
    let (m, hm, h1) = or_throw-eq-ok (find? (is_staff club staff) db.staff) (not_found 0) _ h in
    let (ordinary, h2) = throw_if-eq-ok (eq_text m.role (codes "Affiliate")) (bad_request 0) _ h1 in
    let (order, h3) = throw_if-eq-ok (ltb last first) (bad_request 1) _ h2 in
    let (future, h4) = throw_if-eq-ok (ltb first today) (bad_request 2) _ h3 in
    let (_, h5) = throw_if-eq-ok (days == 0 && first == last) (bad_request 3) _ h4 in
    let (works, h6) = throw_if-eq-ok (days == 0) (bad_request 4) _ h5 in
    let (alone, h7) =
      throw_if-eq-ok (is_some (find? (overlaps club staff first last) db.applications))
        (bad_request 5) _ h6 in
    let (p, hp, h8) =
      or_throw-eq-ok (find? (is_policy club m.role) db.policies) (bad_request 6) _ h7 in
    let (left, h9) =
      throw_if-eq-ok (ltb_ℤ (remaining_leaves p staff today db) (pos days)) (bad_request 7) _ h8 in
    let within = not_ltb_ℤ (remaining_leaves p staff today db) (pos days) left in
    rw (← ok-injective _ r h9) (
      record {
        member = m;
        policy = p;
        is_member = hm;
        no_affiliate = ordinary;
        has_policy = hp;
        is_pending = refl;
        owner = (refl, refl);
        in_order = (ground arith, ground arith);
        works = ground arith;
        counted = (calculate_working_days_lem first last (ground arith)).0;
        balance = omega int_laws;
        apart = λ b m date.
            overlaps-share_date (new_application db.next_id club staff first last reason) b date (
              find?-complete (overlaps club staff first last) db.applications b
                (is_some-none _ alone) m);
      },
      refl,
    )
