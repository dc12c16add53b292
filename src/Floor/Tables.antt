-- ===== src/Floor/Tables.antt =====
-- The table operations of waitlist-seating.service.ts.
use poker_crm_backend.Base.{
  ℕ, ◌+◌, Bool, false, not, Option, none, some, ◌∷◌, ◌&&◌, ◌==◌, ltb, is_some, if◌then◌else◌,
}
use poker_crm_backend.Base.Int.{ℤ, pos, pos_part, ltb_ℤ, eqb_ℤ}
use poker_crm_backend.Base.Result.{
  Result, ok, bad_request, not_found, ◌>>=◌, ◌>>◌, throw_if, or_throw,
}
use poker_crm_backend.Base.Text.{Text}
use poker_crm_backend.Base.Rows.{find?, update_where, delete_where}
use poker_crm_backend.Entities.{
  Db, Table, TableStatus, TableType, RummyRules, is_available, is_occupied,
}
use poker_crm_backend.Floor.Waitlist.{non_empty, patch_text, club_exists}

-- `n || null` of an optional amount.
unfoldable pub non_zero_ℤ : Option ℤ → Option ℤ
non_zero_ℤ none = none
non_zero_ℤ (some n) = if eqb_ℤ n (pos 0) then none else some n

-- The body of createTable.
pub record NewTable : Type 0 where
  pub table_number : ℤ
  pub table_type : TableType
  pub max_seats : ℤ
  pub min_buy_in : Option ℤ
  pub max_buy_in : Option ℤ
  pub notes : Option Text
  pub rules : RummyRules

-- `x !== undefined && x < 0`
unfoldable pub is_negative : Option ℤ → Bool
is_negative none = false
is_negative (some n) = ltb_ℤ n (pos 0)

-- `a !== undefined && b !== undefined && a > b`
unfoldable pub is_above : Option ℤ → Option ℤ → Bool
is_above (some a) (some b) = ltb_ℤ b a
is_above _ _ = false

unfoldable pub filled_rules : RummyRules → RummyRules
filled_rules r = record {
  rummy_variant = non_empty r.rummy_variant;
  points_value = non_zero_ℤ r.points_value;
  number_of_deals = non_zero_ℤ r.number_of_deals;
  drop_points = non_zero_ℤ r.drop_points;
  max_points = non_zero_ℤ r.max_points;
  deal_duration = non_zero_ℤ r.deal_duration;
  entry_fee = non_zero_ℤ r.entry_fee;
  min_players = non_zero_ℤ r.min_players;
}

unfoldable pub has_number : ℕ → ℕ → Table → Bool
has_number club n t = t.club_id == club && t.table_number == n

unfoldable pub new_table : ℕ → ℕ → NewTable → Table
new_table id club d = record {
  id = id;
  club_id = club;
  table_number = pos_part d.table_number;
  table_type = d.table_type;
  max_seats = pos_part d.max_seats;
  current_seats = 0;
  status = TableStatus.available;
  min_buy_in = non_zero_ℤ d.min_buy_in;
  max_buy_in = non_zero_ℤ d.max_buy_in;
  notes = non_empty d.notes;
  reserved_for = none;
  reserved_until = none;
  rules = filled_rules d.rules;
}

-- createTable
unfoldable pub create_table : ℕ → NewTable → Db → Result (Table × Db)
unfolding new_table club_exists has_number
create_table club d db = do
  throw_if (ltb_ℤ d.table_number (pos 1)) (bad_request 0)
  throw_if (ltb_ℤ d.max_seats (pos 1)) (bad_request 1)
  throw_if (is_negative d.min_buy_in) (bad_request 2)
  throw_if (is_negative d.max_buy_in) (bad_request 3)
  throw_if (is_above d.min_buy_in d.max_buy_in) (bad_request 4)
  throw_if (not (club_exists club db)) (not_found 0)
  throw_if (is_some (find? (has_number club (pos_part d.table_number)) db.tables)) (bad_request 5)
  let table = new_table db.next_id club d
  ok (table, record db { tables = table ∷ db.tables; next_id = db.next_id + 1 })

unfoldable pub is_table : ℕ → ℕ → Table → Bool
is_table club id t = t.id == id && t.club_id == club

-- getTable
unfoldable pub get_table : ℕ → ℕ → Db → Result Table
unfolding is_table
get_table club id db = or_throw (find? (is_table club id) db.tables) (not_found 0)

-- `tableRepo.save(table)` of a row that was read.
unfoldable pub save_table : Table → Db → Db
save_table t db = record db {
  tables = update_where (λ (o : Table). o.id == t.id) (λ _. t) db.tables;
}

-- The body of updateTable.
pub record TablePatch : Type 0 where
  pub table_type : Option TableType
  pub max_seats : Option ℤ
  pub status : Option TableStatus
  pub min_buy_in : Option ℤ
  pub max_buy_in : Option ℤ
  pub notes : Option Text
  pub reserved_for : Option Text
  pub reserved_until : Option ℕ
  pub rules : RummyRules

unfoldable pub below_seated : Option ℤ → ℕ → Bool
below_seated none current = false
below_seated (some n) current = ltb_ℤ n (pos current)

unfoldable pub too_few_seats : Option ℤ → Bool
too_few_seats none = false
too_few_seats (some n) = ltb_ℤ n (pos 1)

unfoldable pub frees_seated : Option TableStatus → ℕ → Bool
frees_seated none current = false
frees_seated (some s) current = is_available s && ltb 0 current

unfoldable pub patch_seats : Option ℤ → ℕ → ℕ
patch_seats none old = old
patch_seats (some n) old = pos_part n

-- `if (x !== undefined) field = x;`
unfoldable pub patch {ℓ} : {A : Type ℓ} → Option A → A → A
patch none old = old
patch (some x) old = x

unfoldable pub patch_some {ℓ} : {A : Type ℓ} → Option A → Option A → Option A
patch_some none old = old
patch_some (some x) old = some x

-- `if (x !== undefined) field = x || null;`
unfoldable pub patch_amount : Option ℤ → Option ℤ → Option ℤ
patch_amount none old = old
patch_amount (some x) old = non_zero_ℤ (some x)

unfoldable pub patch_rules : RummyRules → RummyRules → RummyRules
patch_rules d r = record {
  rummy_variant = patch_text d.rummy_variant r.rummy_variant;
  points_value = patch_amount d.points_value r.points_value;
  number_of_deals = patch_amount d.number_of_deals r.number_of_deals;
  drop_points = patch_amount d.drop_points r.drop_points;
  max_points = patch_amount d.max_points r.max_points;
  deal_duration = patch_amount d.deal_duration r.deal_duration;
  entry_fee = patch_amount d.entry_fee r.entry_fee;
  min_players = patch_amount d.min_players r.min_players;
}

unfoldable pub patched_table : TablePatch → Table → Table
patched_table d t = record t {
  max_seats = patch_seats d.max_seats t.max_seats;
  table_type = patch d.table_type t.table_type;
  status = patch d.status t.status;
  min_buy_in = patch_some d.min_buy_in t.min_buy_in;
  max_buy_in = patch_some d.max_buy_in t.max_buy_in;
  notes = patch_text d.notes t.notes;
  reserved_for = patch_text d.reserved_for t.reserved_for;
  reserved_until = patch_some d.reserved_until t.reserved_until;
  rules = patch_rules d.rules t.rules;
}

-- updateTable
unfoldable pub update_table : ℕ → ℕ → TablePatch → Db → Result (Table × Db)
unfolding get_table patched_table save_table patch_seats below_seated
update_table club id d db = do
  table ← get_table club id db
  throw_if (too_few_seats d.max_seats) (bad_request 0)
  throw_if (below_seated d.max_seats table.current_seats) (bad_request 1)
  throw_if (frees_seated d.status table.current_seats) (bad_request 2)
  throw_if (is_negative d.min_buy_in) (bad_request 3)
  throw_if (is_negative d.max_buy_in) (bad_request 4)
  throw_if (is_above d.min_buy_in d.max_buy_in) (bad_request 5)
  ok (patched_table d table, save_table (patched_table d table) db)

-- deleteTable
unfoldable pub delete_table : ℕ → ℕ → Db → Result Db
unfolding get_table
delete_table club id db = do
  table ← get_table club id db
  throw_if (ltb 0 table.current_seats) (bad_request 0)
  throw_if (is_occupied table.status) (bad_request 1)
  ok (record db { tables = delete_where (λ (o : Table). o.id == table.id) db.tables })

-- updateTableStatus, resetTableSeats and updateTableNotes
unfoldable pub update_table_status : ℕ → ℕ → TableStatus → Db → Result (Table × Db)
unfolding get_table save_table
update_table_status club id status db = do
  table ← get_table club id db
  let table' = record table { status = status }
  ok (table', save_table table' db)

unfoldable pub reset_table_seats : ℕ → ℕ → Db → Result (Table × Db)
unfolding get_table save_table
reset_table_seats club id db = do
  table ← get_table club id db
  let table' = record table { current_seats = 0 }
  ok (table', save_table table' db)

unfoldable pub update_table_notes : ℕ → ℕ → Text → Db → Result (Table × Db)
unfolding get_table save_table
update_table_notes club id notes db = do
  table ← get_table club id db
  let table' = record table { notes = some notes }
  ok (table', save_table table' db)
