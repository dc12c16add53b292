-- ===== src/Credit.antt =====
-- src/clubs/credit-used.util.ts and src/clubs/waitlist-buyin.util.ts: how much of a credit line is
-- spoken for, and whether a player can meet the minimum buy-in of a table. Amounts are finite.
pub mod Facility
use poker_crm_backend.Base.{
  ℕ, Bool, true, false, not, Option, none, some, List, [], ◌∷◌, ◌&&◌, ◌||◌, ◌==◌, leb,
  if◌then◌else◌,
}
use poker_crm_backend.Base.Int.{ℤ, pos, ◌+ℤ◌, ◌-ℤ◌, neg, leb_ℤ, ltb_ℤ, min_ℤ, max_ℤ}
use poker_crm_backend.Entities.{CreditRequest, is_approved_credit}

-- `$3::timestamptz IS NULL OR updated_at >= $3::timestamptz`
unfoldable pub is_since : Option ℕ → ℕ → Bool
is_since none updated = true
is_since (some since) updated = leb since updated

-- sumApprovedCreditLimitSince
unfoldable pub sum_approved_credit_limit_since : ℕ → ℕ → Option ℕ → List CreditRequest → ℤ
unfolding is_since
sum_approved_credit_limit_since club player since [] = pos 0
sum_approved_credit_limit_since club player since (r ∷ rs) =
    (if r.club_id == club
        && r.player_id == player
        && is_approved_credit r.status
        && is_since since r.updated_at
      then r.limit
      else pos 0)
    +ℤ sum_approved_credit_limit_since club player since rs

-- creditUsedForAvailability
unfoldable pub credit_used_for_availability : ℤ → ℤ → ℤ
credit_used_for_availability capped wallet = if leb_ℤ (pos 0) wallet then pos 0 else capped

pub record CreditFacilityBreakdown : Type 0 where
  pub credit_repaid_via_wallet : ℤ
  pub effective_credit_on_line : ℤ
  pub consumed_against_limit : ℤ
  pub available_credit : ℤ

-- The parameters of computeCreditFacilityBreakdown.
pub record FacilityParams : Type 0 where
  pub credit_limit : ℤ
  pub credit_used_from_approvals : ℤ
  pub credit_ledger_net : ℤ
  pub available_balance : ℤ
  pub credit_enabled : Bool

-- The part of the function below its first return, at a positive limit.
unfoldable pub line_breakdown : ℤ → ℤ → ℤ → CreditFacilityBreakdown
line_breakdown limit net wallet =
    let on_line = min_ℤ (max_ℤ (pos 0) net) limit in
    let shortfall = max_ℤ (pos 0) (neg wallet) in
    let via_wallet = if leb_ℤ net (pos 0) then min_ℤ limit shortfall else pos 0 in
    let consumed = min_ℤ limit (on_line +ℤ via_wallet) in
    record {
      credit_repaid_via_wallet = via_wallet;
      effective_credit_on_line = on_line;
      consumed_against_limit = consumed;
      available_credit = max_ℤ (pos 0) (limit -ℤ consumed);
    }

-- computeCreditFacilityBreakdown
unfoldable pub compute_credit_facility_breakdown : FacilityParams → CreditFacilityBreakdown
unfolding line_breakdown
compute_credit_facility_breakdown params =
    let limit = max_ℤ (pos 0) params.credit_limit in
    if not params.credit_enabled || leb_ℤ limit (pos 0)
    then record {
      credit_repaid_via_wallet = pos 0;
      effective_credit_on_line = pos 0;
      consumed_against_limit = pos 0;
      available_credit = pos 0;
    }
    else line_breakdown limit params.credit_ledger_net params.available_balance

-- playerMeetsTableMinBuyIn
unfoldable pub player_meets_table_min_buy_in : ℤ → ℤ → ℤ → Bool
player_meets_table_min_buy_in wallet credit min_buy_in =
    let least = max_ℤ (pos 0) min_buy_in in
    let c = max_ℤ (pos 0) credit in
    if leb_ℤ least (pos 0)
    then true
    else if ltb_ℤ wallet (pos 0)
    then leb_ℤ least c
    else leb_ℤ least (wallet +ℤ c)
