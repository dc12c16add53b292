-- ===== src/Floor/Seating/Opened.antt =====
-- The money of a player after a successful assignSeat of
-- src/clubs/services/waitlist-seating.service.ts.
use poker_crm_backend.Base.{Memᴰ, List, ℕ, ◌≡◌, ◌≤◌, refl, arith, true, false, Option, some}
use poker_crm_backend.Base.Int.{ℤ, pos, ◌+ℤ◌, ◌-ℤ◌, ◌≤ℤ◌, ◌<ℤ◌, max_ℤ, int_laws, bound_laws}
use poker_crm_backend.Base.Result.{ok}
use poker_crm_backend.Base.Rows.{find?, find?-sound, find?-mem}
use poker_crm_backend.Entities.{Db, Table, WaitlistEntry, Player}
use poker_crm_backend.Ledger.{wallet_balance, credit_balance, session_chips}
use poker_crm_backend.Ledger.Balances.{KeepsOthers, KeepsOthers-trans}
use poker_crm_backend.Credit.{compute_credit_facility_breakdown}
use poker_crm_backend.Floor.Format.{NumberFormat}
use poker_crm_backend.Floor.Waitlist.{save_entry}
use poker_crm_backend.Floor.Tables.{save_table, is_table}
use poker_crm_backend.Floor.Seating.Checks.{filled_table, seated_entry, effective_seat}
use poker_crm_backend.Floor.Seating.Opening.{
  OpeningChips, facility_params, least_buy_in, buy_in_cap, post_cash,
}
use poker_crm_backend.Floor.Seating.Assign.{assign_seat, is_player}
use poker_crm_backend.Floor.Seating.Inversion.{
  seated_rows, after_seating, assign_seat_locked-Assigned, assign_seat-locked,
}
use poker_crm_backend.Floor.Seating.Money.{IsOpening, opening_chips-IsOpening}
use poker_crm_backend.Floor.Seating.Posting.{
  Changes, post_cash-Changes, post_credit-Changes, post_cash-KeepsOthers, post_credit-KeepsOthers,
}

-- The ledger is untouched by the rows of the floor.
abbrev floor_saved : Table → WaitlistEntry → Option ℕ → ℕ → ℕ → Db → Db
floor_saved table entry seat by now db =
    save_entry (seated_entry table seat by now entry) (save_table (filled_table entry table) db)

saved_ledger :
    (table : Table) (entry : WaitlistEntry) (seat : Option ℕ) (by now : ℕ) (db : Db)
    → (floor_saved table entry seat by now db).ledger ≡ db.ledger
unfolding save_entry save_table
saved_ledger table entry seat by now db = refl

-- The balances after a seating with given chips.
after_seating-Changes :
    (fmt : NumberFormat) (club : ℕ) (p : Player) (t : Table) (entry : WaitlistEntry)
    (seat : Option ℕ) (by now : ℕ) (c : OpeningChips) (db : Db) (since : ℕ)
    → since ≤ now
    → pos 0 ≤ℤ c.cash
    → pos 0 ≤ℤ c.credit
    → Changes club p.id since
        (pos 0 -ℤ c.cash)
        c.credit
        (c.cash +ℤ c.credit)
        db
        (after_seating fmt club p t entry seat by now c db)
unfolding save_entry save_table
after_seating-Changes fmt club p t entry seat by now c db since h hc hk =
    let base = floor_saved t entry seat by now db in
    let cash = post_cash-Changes fmt club p t seat c.cash now base hc since h in
    let mid = post_cash fmt club p t seat c.cash now base in
    let credit = post_credit-Changes fmt club p t seat c.credit now mid hk since h in
    record {
      wallet_change = rw (credit.wallet_change, cash.wallet_change) (omega int_laws);
      credit_change = rw (credit.credit_change, cash.credit_change) (omega int_laws);
      chips_change = rw (credit.chips_change, cash.chips_change) (omega int_laws);
    }

-- The player took all the cash of the wallet to the table, and some credit of the line.
pub record IsOpened (club : ℕ) (p : Player) (table : Table) (since : ℕ) (credit : ℤ) (db db' : Db)
    : Type 0 where
  pub solvent : pos 0 ≤ℤ wallet_balance club p.id db.ledger
  pub emptied : wallet_balance club p.id db'.ledger ≡ pos 0
  pub chips_gained :
      session_chips club p.id since db'.ledger
      ≡ session_chips club p.id since db.ledger +ℤ (wallet_balance club p.id db.ledger +ℤ credit)
  pub credit_drawn :
      credit_balance club p.id db'.ledger ≡ credit_balance club p.id db.ledger +ℤ credit
  pub some_credit : pos 0 ≤ℤ credit
  pub no_facility : p.credit_enabled ≡ false → credit ≡ pos 0
  pub line_kept :
      p.credit_enabled ≡ true
      → credit_balance club p.id db.ledger ≤ℤ p.credit_limit
      → credit_balance club p.id db'.ledger ≤ℤ max_ℤ (pos 0) p.credit_limit
  pub least_met :
      pos 0 <ℤ least_buy_in table
      → least_buy_in table ≤ℤ wallet_balance club p.id db.ledger +ℤ credit +ℤ pos 1

no_line :
    (club : ℕ) (p : Player) (db : Db)
    → p.credit_enabled ≡ false
    → (compute_credit_facility_breakdown (facility_params club p db)).effective_credit_on_line
      ≡ pos 0
unfolding compute_credit_facility_breakdown facility_params
no_line club p db off = rw off refl

no_line_no_credit :
    (club : ℕ) (p : Player) (db : Db) (least : ℤ) (cap : Option ℤ) (c : OpeningChips)
    → IsOpening (facility_params club p db) least cap c
    → p.credit_enabled ≡ false
    → c.credit ≡ pos 0
no_line_no_credit club p db least cap c o off =
    let bound : c.credit ≤ℤ max_ℤ (pos 0) (pos 0) = (rw (no_line club p db off) at o.within_line) in
    omega (bound_laws, o.some_credit)

drawn_within_limit :
    (club : ℕ) (p : Player) (db : Db) (least : ℤ) (cap : Option ℤ) (c : OpeningChips)
    → IsOpening (facility_params club p db) least cap c
    → p.credit_enabled ≡ true
    → credit_balance club p.id db.ledger ≤ℤ p.credit_limit
    → credit_balance club p.id db.ledger +ℤ c.credit ≤ℤ max_ℤ (pos 0) p.credit_limit
unfolding facility_params
drawn_within_limit club p db least cap c o on under =
    let room : c.credit
        ≤ℤ max_ℤ (pos 0) (p.credit_limit -ℤ max_ℤ (pos 0) (credit_balance club p.id db.ledger)) =
      (rw on at o.within_headroom) in
    omega bound_laws

-- The chips that the checks allow, posted, open the table for the player.
opens :
    (fmt : NumberFormat) (club : ℕ) (p : Player) (t : Table) (entry : WaitlistEntry)
    (seat : Option ℕ) (by now : ℕ) (c : OpeningChips) (db : Db) (since : ℕ)
    → since ≤ now
    → IsOpening (facility_params club p db) (least_buy_in t) (buy_in_cap t) c
    → IsOpened club p t since c.credit db (after_seating fmt club p t entry seat by now c db)
unfolding facility_params
opens fmt club p t entry seat by now c db since h o =
    let cash_nonneg : pos 0 ≤ℤ c.cash = rw o.all_cash o.solvent in
    let ch =
      after_seating-Changes fmt club p t entry seat by now c db since h cash_nonneg o.some_credit in
    record {
      solvent = o.solvent;
      emptied = rw (ch.wallet_change, o.all_cash) (omega int_laws);
      chips_gained = rw (ch.chips_change, o.all_cash) (omega int_laws);
      credit_drawn = ch.credit_change;
      some_credit = o.some_credit;
      no_facility = λ off. no_line_no_credit club p db _ _ c o off;
      line_kept = λ on under. rw ch.credit_change (drawn_within_limit club p db _ _ c o on under);
      least_met = λ positive. rw (← o.all_cash) (o.enough positive);
    }

after_seating-KeepsOthers :
    (fmt : NumberFormat) (club : ℕ) (p : Player) (t : Table) (entry : WaitlistEntry)
    (seat : Option ℕ) (by now : ℕ) (c : OpeningChips) (db : Db)
    → pos 0 ≤ℤ c.cash
    → pos 0 ≤ℤ c.credit
    → KeepsOthers club p.id db.ledger (after_seating fmt club p t entry seat by now c db).ledger
unfolding save_entry save_table
after_seating-KeepsOthers fmt club p t entry seat by now c db hc hk =
    let base = floor_saved t entry seat by now db in
    KeepsOthers-trans (post_cash-KeepsOthers fmt club p t seat c.cash now base hc) (
      post_credit-KeepsOthers fmt club p t seat c.credit now
        (post_cash fmt club p t seat c.cash now base) hk)

player_of_entry :
    (club pid : ℕ) (p : Player) (t : Table) (entry : WaitlistEntry) (seat : Option ℕ) (by now : ℕ)
    (players : List Player)
    → entry.player_id ≡ some pid
    → find? (is_player club pid) players ≡ some p
    → (seated_entry t seat by now entry).player_id ≡ some p.id
unfolding seated_entry is_player
player_of_entry club pid p t entry seat by now players names found =
    ground (arith, find?-sound (is_player club pid) players found)

-- What a successful seating does, for the player of the entry.
pub record Seats (club table_id since : ℕ) (db : Db) (r : WaitlistEntry × Db) : Type 0 where
  pub player : Player
  pub table : Table
  pub credit : ℤ
  pub player_found : Memᴰ player db.players
  pub table_found : find? (is_table club table_id) db.tables ≡ some table
  pub of_entry : r.0.player_id ≡ some player.id
  pub opened : IsOpened club player table since credit db r.1
  pub others : KeepsOthers club player.id db.ledger r.1.ledger

module _ (fmt : NumberFormat) (club entry_id table_id seated_by : ℕ) (assigned_seat : Option ℕ)
    (now : ℕ) where
  -- A successful seating finds the wallet of the player not negative and empties it: all its cash
  -- and some credit are chips of the session. Without a credit facility there is no credit, with one
  -- a drawn line within the limit stays within it, and the minimum buy-in of the table is met to
  -- within 0.0001. No other account changes. The database may change between the first checks and
  -- the transaction.
  pub assign_seat-Seats :
      (since : ℕ) (before db : Db) {r : WaitlistEntry × Db}
      → since ≤ now
      → assign_seat fmt club entry_id table_id seated_by assigned_seat now before db ≡ ok r
      → Seats club table_id since db r
  assign_seat-Seats since before db {r} late h =
      let locked =
        assign_seat-locked fmt club entry_id table_id seated_by assigned_seat now before db h in
      let a =
        assign_seat_locked-Assigned fmt club entry_id table_id seated_by assigned_seat now db
          locked in
      let (chips, hc, e, _, _) = seated_rows a in
      let o = opening_chips-IsOpening _ (least_buy_in a.table) (buy_in_cap a.table) hc in
      let seat = effective_seat assigned_seat a.entry in
      let cash_nonneg : pos 0 ≤ℤ chips.cash = rw o.all_cash o.solvent in
      record {
        player = a.player;
        table = a.table;
        credit = chips.credit;
        player_found = find?-mem (is_player club a.player_id) db.players a.player_found;
        table_found = a.table_found;
        of_entry = rw e (
            player_of_entry club a.player_id a.player a.table a.entry seat seated_by now db.players
              a.names_player a.player_found);
        opened =
            rw e (opens fmt club a.player a.table a.entry seat seated_by now chips db since late o);
        others = rw e (
            after_seating-KeepsOthers fmt club a.player a.table a.entry seat seated_by now chips db
              cash_nonneg o.some_credit);
      }
