-- ===== src/Credit/Facility.antt =====
-- What computeCreditFacilityBreakdown of src/clubs/credit-used.util.ts promises of a credit line.
use poker_crm_backend.Base.{◌≡◌, inl, inr, Bool-cases, if◌then◌else◌}
use poker_crm_backend.Base.Int.{ℤ, pos, ◌+ℤ◌, ◌≤ℤ◌, leb_ℤ, max_ℤ, bound_laws, leb_ℤ_cases}
use poker_crm_backend.Credit.{
  FacilityParams, CreditFacilityBreakdown, compute_credit_facility_breakdown, line_breakdown,
  player_meets_table_min_buy_in,
}

-- The consumed and the available part make up the limit, the consumed part is the credit on the
-- line plus the part used through a negative wallet, and no part is negative.
abbrev pub Partitions : ℤ → CreditFacilityBreakdown → Type 0
Partitions limit b =
    (b.consumed_against_limit +ℤ b.available_credit ≡ limit)
    × (b.effective_credit_on_line +ℤ b.credit_repaid_via_wallet ≡ b.consumed_against_limit)
    × (pos 0 ≤ℤ b.available_credit)
    × (pos 0 ≤ℤ b.effective_credit_on_line)
    × (pos 0 ≤ℤ b.credit_repaid_via_wallet)

line_breakdown-Partitions :
    (limit net wallet : ℤ) → pos 0 ≤ℤ limit → Partitions limit (line_breakdown limit net wallet)
unfolding line_breakdown
line_breakdown-Partitions limit net wallet h = elim (leb_ℤ_cases net (pos 0)) [
  | inl (e, le) ↦
      rw e
        (omega bound_laws, omega bound_laws, omega bound_laws, omega bound_laws, omega bound_laws)
  | inr (e, gt) ↦
      rw e
        (omega bound_laws, omega bound_laws, omega bound_laws, omega bound_laws, omega bound_laws)
]

-- The limit of the facility as the function reads it: nothing where credit is disabled.
abbrev pub facility_limit : FacilityParams → ℤ
facility_limit p = if p.credit_enabled then max_ℤ (pos 0) p.credit_limit else pos 0

-- Whatever the ledger and the wallet: the consumed part and the available part make up the limit
-- of the facility (nothing if credit is disabled), the consumed part is the credit on the line plus
-- the part used through a negative wallet, and no part is negative.
pub breakdown-Partitions :
    (p : FacilityParams) → Partitions (facility_limit p) (compute_credit_facility_breakdown p)
unfolding compute_credit_facility_breakdown
breakdown-Partitions p = elim (Bool-cases p.credit_enabled) [
  | inl e ↦ elim (leb_ℤ_cases (max_ℤ (pos 0) p.credit_limit) (pos 0)) [
    | inl (z, le) ↦
        rw (e, z)
          (omega bound_laws, omega bound_laws, omega bound_laws, omega bound_laws, omega bound_laws)
    | inr (z, gt) ↦ rw (e, z) (line_breakdown-Partitions _ _ _ (omega bound_laws))
  ]
  | inr e ↦
      rw e
        (omega bound_laws, omega bound_laws, omega bound_laws, omega bound_laws, omega bound_laws)
]

-- A player meets a minimum buy-in exactly if the cash of the wallet and the credit on the line, each
-- counted as nothing where it is negative, add up to it.
pub player_meets_table_min_buy_in_lem :
    (wallet credit least : ℤ)
    → player_meets_table_min_buy_in wallet credit least
      ≡ leb_ℤ least (max_ℤ (pos 0) wallet +ℤ max_ℤ (pos 0) credit)
unfolding player_meets_table_min_buy_in
player_meets_table_min_buy_in_lem wallet credit least = grind bound_laws
