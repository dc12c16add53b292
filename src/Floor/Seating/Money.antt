-- ===== src/Floor/Seating/Money.antt =====
-- What assignSeat of src/clubs/services/waitlist-seating.service.ts does to the money of a player.
use poker_crm_backend.Base.{◌≡◌, arith, false, not, Option, none, some, ◌&&◌}
use poker_crm_backend.Base.Int.{ℤ, pos, ◌+ℤ◌, ◌-ℤ◌, ◌≤ℤ◌, ◌<ℤ◌, ltb_ℤ, max_ℤ, bound_laws}
use poker_crm_backend.Base.Result.{ok, bad_request, throw_if-eq-ok, ok-injective}
use poker_crm_backend.Credit.{
  FacilityParams, compute_credit_facility_breakdown, player_meets_table_min_buy_in,
}
use poker_crm_backend.Floor.Seating.Opening.{OpeningChips, credit_to_apply, opening_chips}

-- The credit that may still be drawn under the limit.
abbrev pub headroom : FacilityParams → ℤ
headroom p = max_ℤ (pos 0) (p.credit_limit -ℤ max_ℤ (pos 0) p.credit_ledger_net)

-- The cap is kept where credit is applied.
abbrev pub IsUnder : OpeningChips → Option ℤ → Type 0
IsUnder c none = Unit
IsUnder c (some cap) = pos 0 <ℤ c.credit → c.cash +ℤ c.credit ≤ℤ cap

-- All the cash of the wallet and some credit, within the bounds.
pub record IsOpening (p : FacilityParams) (least : ℤ) (cap : Option ℤ) (c : OpeningChips)
    : Type 0 where
  pub solvent : pos 0 ≤ℤ p.available_balance
  pub all_cash : c.cash ≡ p.available_balance
  pub some_credit : pos 0 ≤ℤ c.credit
  pub within_headroom : c.credit ≤ℤ headroom p
  pub within_line :
      c.credit ≤ℤ max_ℤ (pos 0) (compute_credit_facility_breakdown p).effective_credit_on_line
  pub enough : pos 0 <ℤ least → least ≤ℤ c.cash +ℤ c.credit +ℤ pos 1
  pub under_cap : IsUnder c cap

credit_to_apply_bounds :
    (cap : Option ℤ) (cash line room : ℤ)
    → pos 0 ≤ℤ line
    → pos 0 ≤ℤ room
    → let credit = credit_to_apply cap cash line room in
      (pos 0 ≤ℤ credit)
      × (credit ≤ℤ line)
      × (credit ≤ℤ room)
      × IsUnder (record { cash = cash; credit = credit }) cap
unfolding credit_to_apply
credit_to_apply_bounds none cash line room hl hr =
    (omega bound_laws, omega bound_laws, omega bound_laws, tt)
credit_to_apply_bounds (some cap) cash line room hl hr =
    (omega bound_laws, omega bound_laws, omega bound_laws, λ h. omega bound_laws)

enough_chips :
    (least total : ℤ)
    → (ltb_ℤ (pos 0) least && ltb_ℤ (total +ℤ pos 1) least) ≡ false
    → pos 0 <ℤ least
    → least ≤ℤ total +ℤ pos 1
enough_chips least total h h' = ground arith

pub opening_chips-IsOpening :
    (p : FacilityParams) (least : ℤ) (cap : Option ℤ) {c : OpeningChips}
    → opening_chips p least cap ≡ ok c
    → IsOpening p least cap c
unfolding opening_chips
opening_chips-IsOpening p least cap {c} h =
    let line = max_ℤ (pos 0) (compute_credit_facility_breakdown p).effective_credit_on_line in
    let cash = max_ℤ (pos 0) p.available_balance in
    let credit = credit_to_apply cap cash line (headroom p) in
    let (solvent, h1) = throw_if-eq-ok (ltb_ℤ p.available_balance (pos 0)) (bad_request 9) _ h in
    let (_, h2) =
      throw_if-eq-ok (not (player_meets_table_min_buy_in p.available_balance line least))
        (bad_request 10) _ h1 in
    let (fine, h3) =
      throw_if-eq-ok (ltb_ℤ (pos 0) least && ltb_ℤ (cash +ℤ credit +ℤ pos 1) least) (bad_request 11)
        _ h2 in
    let chips : OpeningChips = record { cash = cash; credit = credit } in
    let nonneg : pos 0 ≤ℤ p.available_balance = ground arith in
    let (b1, b2, b3, b4) =
      credit_to_apply_bounds cap cash line (headroom p) (omega bound_laws) (omega bound_laws) in
    rw (← ok-injective chips c h3) (record {
      solvent = nonneg;
      all_cash = omega bound_laws;
      some_credit = b1;
      within_headroom = b3;
      within_line = b2;
      enough = enough_chips least (cash +ℤ credit) fine;
      under_cap = b4;
    })
