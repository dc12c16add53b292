-- ===== src/Examples/Leave.antt =====
-- A dealer with three days of leave a year, on Friday 4 October 2024 (day 20,000).
use poker_crm_backend.Base.{arith, ℕ, ◌+◌, ◌≡◌, refl, true, none, [], ◌∷◌}
use poker_crm_backend.Base.Text.{codes}
use poker_crm_backend.Base.Result.{Result, ok}
use poker_crm_backend.Base.Rows.{find?}
use poker_crm_backend.Leave.{Staff, LeaveStatus, LeaveApplication, LeaveDb}
use poker_crm_backend.Leave.Applications.{
  create_leave_application, approve_leave_application, used_leaves,
}
use poker_crm_backend.Leave.Dates.{calculate_working_days}
use poker_crm_backend.Leave.Created.{IsDue, create_leave_application-IsDue}
use poker_crm_backend.Leave.Decided.{IsAllowed, IsDecided, approve_leave_application-IsDecided}
use poker_crm_backend.Leave.Apart.{AreApart}
use poker_crm_backend.Leave.Kept.{run_leave-AreApart}
use poker_crm_backend.Leave.History.{apply, approve, run_leave}
use poker_crm_backend.Leave.Overdrawn.{IsReady}
use poker_crm_backend.Leave.Balance.{approve_leave_application-used_leaves}
use poker_crm_backend.Examples.{succeeds, value, value-ok}
use poker_crm_backend.Leave.Applications.{is_application}
use poker_crm_backend.Leave.Applications.{
  is_staff, overlaps, is_pending_leave, remaining_leaves, uses_leave, is_approved_leave,
  check_decision, find_application, is_pending_leave, has_staff_id,
}
use poker_crm_backend.Leave.{
  eq_text, is_policy, can_approver_handle_applicant, is_super_admin_role,
  can_regular_approver_approve, normalize_role, upper_code, eq_text,
}
use poker_crm_backend.Leave.Dates.{
  count_days, is_working_day, is_off_day, day_of_week, year_start, year_end, year_start_from,
  year_length, is_leap,
}
use poker_crm_backend.Base.Int.{◌-ℤ◌}
use poker_crm_backend.Base.Text.{is_space}

abbrev dealer : Staff
dealer = record { id = 5; club_id = 1; role = codes "Dealer" }

-- The days from Monday 7 to Tuesday 8 October.
abbrev asked : ℕ → ℕ → LeaveApplication
asked id first = record {
  id = id;
  club_id = 1;
  staff_id = 5;
  start_date = first;
  end_date = first + 1;
  number_of_days = 2;
  reason = codes "family visit";
  status = LeaveStatus.pending;
  approved_by = none;
  approved_at = none;
  rejection_reason = none;
  rejected_at = none;
}

abbrev october : LeaveDb
october = record {
  staff = dealer ∷ [];
  policies =
      record {
        club_id = 1;
        role = codes "Dealer";
        leaves_per_year = 3;
        created_by = none;
        updated_by = none;
      }
      ∷ [];
  applications = asked 70 20_003 ∷ (asked 71 20_010 ∷ []);
  next_id = 90;
}

abbrev wish : Result (LeaveApplication × LeaveDb)
wish = create_leave_application 1 5 20_005 20_005 (codes "wedding day") 20_000 october

wish_works : succeeds wish ≡ true
unfolding create_leave_application is_staff find? eq_text calculate_working_days count_days
    is_working_day is_off_day day_of_week overlaps is_pending_leave is_policy remaining_leaves
    used_leaves uses_leave is_approved_leave year_start year_end year_start_from year_length is_leap
    ◌-ℤ◌
wish_works = refl

create_leave_application-IsDue_example :
    IsDue 1 5 20_000 (value wish wish_works).0 october
    × ((value wish wish_works).1.applications ≡ (value wish wish_works).0 ∷ october.applications)
create_leave_application-IsDue_example =
    create_leave_application-IsDue 1 5 20_005 20_005 (codes "wedding day") 20_000 october
      (value-ok wish wish_works)

abbrev consent : Result (LeaveApplication × LeaveDb)
consent = approve_leave_application 1 70 9 (codes "super_admin") 1000 october

consent_works : succeeds consent ≡ true
unfolding approve_leave_application check_decision find_application is_application find?
    is_pending_leave has_staff_id can_approver_handle_applicant is_super_admin_role
    can_regular_approver_approve normalize_role upper_code is_space eq_text
consent_works = refl

approve_leave_application-IsDecided_example :
    IsAllowed 1 70 (codes "super_admin") october × IsDecided 1 70 (value consent consent_works).1
approve_leave_application-IsDecided_example =
    approve_leave_application-IsDecided 1 70 9 (codes "super_admin") 1000 october
      (value-ok consent consent_works)

october_apart : AreApart october.applications
unfolding is_pending_leave
october_apart = ((λ date. ground arith, tt), (tt, tt))

run_leave-AreApart_example :
    AreApart
      (run_leave
        (apply 1 5 20_003 20_004 (codes "family visit") 20_000
          ∷ (approve 1 70 9 (codes "HR") 1000
              ∷ (apply 1 5 20_004 20_012 (codes "second visit") 20_000 ∷ [])))
        october).applications
run_leave-AreApart_example =
    run_leave-AreApart
      (apply 1 5 20_003 20_004 (codes "family visit") 20_000
        ∷ (approve 1 70 9 (codes "HR") 1000
            ∷ (apply 1 5 20_004 20_012 (codes "second visit") 20_000 ∷ [])))
      october october_apart

first-IsReady : IsReady 1 70 5 20_000 (codes "HR") (asked 70 20_003) october
unfolding is_application find? is_pending_leave has_staff_id can_approver_handle_applicant
    is_super_admin_role can_regular_approver_approve normalize_role upper_code is_space eq_text
    year_start year_end year_start_from year_length is_leap
first-IsReady = record {
  found = refl;
  was_pending = refl;
  owner = refl;
  member = dealer;
  is_member = refl;
  may_decide = refl;
  in_year = (refl, refl);
}

second-IsReady : IsReady 1 71 5 20_000 (codes "HR") (asked 71 20_010) october
unfolding is_application find? is_pending_leave has_staff_id can_approver_handle_applicant
    is_super_admin_role can_regular_approver_approve normalize_role upper_code is_space eq_text
    year_start year_end year_start_from year_length is_leap
second-IsReady = record {
  found = refl;
  was_pending = refl;
  owner = refl;
  member = dealer;
  is_member = refl;
  may_decide = refl;
  in_year = (refl, refl);
}

-- Four days are approved where the policy has three.
approve_leave_application-used_leaves_example :
    (r : LeaveApplication × LeaveDb) × (r' : LeaveApplication × LeaveDb)
    × (approve_leave_application 1 70 9 (codes "HR") 1000 october ≡ ok r)
    × (approve_leave_application 1 71 9 (codes "HR") 1100 r.1 ≡ ok r')
    × (used_leaves 5 20_000 r'.1.applications ≡ used_leaves 5 20_000 october.applications + 2 + 2)
approve_leave_application-used_leaves_example =
    approve_leave_application-used_leaves 1 70 71 5 20_000 (codes "HR") 9 1000 1100
      (asked 70 20_003) (asked 71 20_010) october ((refl, tt), (tt, tt)) refl first-IsReady
      second-IsReady
