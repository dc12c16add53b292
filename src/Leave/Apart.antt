-- ===== src/Leave/Apart.antt =====
-- The pending leave applications of src/clubs/services/leave-management.service.ts never overlap.
use poker_crm_backend.Base.{
  ℕ, ◌≡◌, refl, arith, Bool, false, List, [], ◌∷◌, All, Bool-cases, inl, inr,
}
use poker_crm_backend.Base.Result.{Result, ok, err}
use poker_crm_backend.Base.Rows.{update_where, All-update_where}
use poker_crm_backend.Leave.Created.{share_date}
use poker_crm_backend.Leave.{LeaveApplication, LeaveDb}
use poker_crm_backend.Leave.Applications.{is_pending_leave, save_application}
use poker_crm_backend.Leave.History.{or_same}

-- No two of the applications are pending, of one member of a club, and share a date.
abbrev pub IsFreeOf : LeaveApplication → LeaveApplication → Type 0
IsFreeOf a b = (date : ℕ) → share_date date a b ≡ false

abbrev pub AreApart : List LeaveApplication → Type 0
AreApart [] = Unit
AreApart (a ∷ as') = All (IsFreeOf a) as' × AreApart as'

-- An application that is not pending is in nobody's way.
settled-IsFreeOf : (a b : LeaveApplication) → is_pending_leave b.status ≡ false → IsFreeOf a b
settled-IsFreeOf a b h date = ground arith

All-settled :
    (a : LeaveApplication) (rows : List LeaveApplication)
    → is_pending_leave a.status ≡ false
    → All (IsFreeOf a) rows
All-settled a [] h = tt
All-settled a (b ∷ bs) h = (λ date. ground arith, All-settled a bs h)

settle-AreApart :
    (p : LeaveApplication → Bool) (a : LeaveApplication) (rows : List LeaveApplication)
    → is_pending_leave a.status ≡ false
    → AreApart rows
    → AreApart (update_where p (λ _. a) rows)
unfolding update_where
settle-AreApart p a [] h apart = tt
settle-AreApart p a (b ∷ bs) h apart =
    let rest = settle-AreApart p a bs h apart.1 in
    elim (Bool-cases (p b)) [
      | inl e ↦ rw e (All-settled a _ h, rest)
      | inr e ↦ rw e (
        All-update_where (IsFreeOf b) p (λ _. a) bs (λ o _ _. settled-IsFreeOf b a h) apart.0,
        rest,
      )
    ]

abbrev pub AreApartIn : LeaveDb → Type 0
AreApartIn db = AreApart db.applications

-- A refused request, and one that succeeds and keeps the applications apart.
pub or_same-AreApart :
    {A : Type 0} (state : A → LeaveDb) (db : LeaveDb) (r : Result A)
    → AreApartIn db
    → ((a : A) → r ≡ ok a → AreApartIn (state a))
    → AreApartIn (or_same state db r)
or_same-AreApart state db (ok a) apart keep = keep a refl
or_same-AreApart state db (err e) apart keep = apart

pub save-AreApart :
    (a : LeaveApplication) (db : LeaveDb)
    → is_pending_leave a.status ≡ false
    → AreApartIn db
    → AreApartIn (save_application a db)
unfolding save_application
save-AreApart a db h apart = settle-AreApart _ a db.applications h apart
