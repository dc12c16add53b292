-- ===== src/Floor/Waitlist.antt =====
-- The waitlist operations of waitlist-seating.service.ts.
use poker_crm_backend.Base.{
  ℕ, ◌+◌, Bool, false, not, Option, none, some, ◌∷◌, ◌&&◌, ◌||◌, ◌==◌, eq_opt, is_some,
  if◌then◌else◌,
}
use poker_crm_backend.Base.Int.{ℤ, pos, pos_part, ltb_ℤ, eqb_ℤ}
use poker_crm_backend.Base.Result.{
  Result, ok, bad_request, not_found, ◌>>=◌, ◌>>◌, throw_if, or_throw,
}
use poker_crm_backend.Base.Text.{Text, is_empty, trim}
use poker_crm_backend.Base.Rows.{find?, update_where, delete_where}
use poker_crm_backend.Entities.{
  Db, WaitlistEntry, WaitlistStatus, GameType, is_seated, is_pending, is_cancelled,
}

-- `s || null` of an optional text, and `n || null` of an optional number.
unfoldable pub non_empty : Option Text → Option Text
non_empty none = none
non_empty (some s) = if is_empty s then none else some s

unfoldable pub non_zero : Option ℕ → Option ℕ
non_zero none = none
non_zero (some n) = if n == 0 then none else some n

-- `n || d`
unfoldable pub or_default : Option ℤ → ℤ → ℤ
or_default none d = d
or_default (some n) d = if eqb_ℤ n (pos 0) then d else n

-- The body of createWaitlistEntry.
pub record NewEntry : Type 0 where
  pub player_name : Text
  pub player_id : Option ℕ
  pub phone_number : Option Text
  pub email : Option Text
  pub party_size : Option ℤ
  pub priority : Option ℤ
  pub notes : Option Text
  pub table_type : Option Text
  pub requested_game_type : Option GameType
  pub requested_seat : Option ℕ

-- `x && x < 1`, at a number that is given and not 0.
unfoldable pub bad_party : Option ℤ → Bool
bad_party none = false
bad_party (some n) = not (eqb_ℤ n (pos 0)) && ltb_ℤ n (pos 1)

-- `x < 0 || x > 100`
unfoldable pub bad_priority : Option ℤ → Bool
bad_priority none = false
bad_priority (some n) = ltb_ℤ n (pos 0) || ltb_ℤ (pos 100) n

unfoldable pub club_exists : ℕ → Db → Bool
club_exists club db = is_some (find? (λ c. c == club) db.clubs)

-- A pending entry of the player in the club.
unfoldable pub waits_for : ℕ → ℕ → WaitlistEntry → Bool
waits_for club player e =
    e.club_id == club && eq_opt e.player_id (some player) && is_pending e.status

unfoldable pub already_waiting : ℕ → Option ℕ → Db → Bool
unfolding waits_for
already_waiting club none db = false
already_waiting club (some player) db = is_some (find? (waits_for club player) db.entries)

-- The row that createWaitlistEntry saves.
unfoldable pub new_entry : ℕ → ℕ → NewEntry → ℕ → WaitlistEntry
new_entry id club d now = record {
  id = id;
  club_id = club;
  player_name = trim d.player_name;
  player_id = d.player_id;
  phone_number = non_empty d.phone_number;
  email = non_empty d.email;
  party_size = pos_part (or_default d.party_size (pos 1));
  status = WaitlistStatus.pending;
  table_number = none;
  table_type = non_empty d.table_type;
  requested_game_type = d.requested_game_type;
  requested_seat = non_zero d.requested_seat;
  assigned_seat = none;
  priority = pos_part (or_default d.priority (pos 0));
  notes = non_empty d.notes;
  seated_at = none;
  cancelled_at = none;
  seated_by = none;
  created_at = now;
}

-- createWaitlistEntry
unfoldable pub create_waitlist_entry : ℕ → NewEntry → ℕ → Db → Result (WaitlistEntry × Db)
unfolding new_entry already_waiting club_exists bad_party bad_priority
create_waitlist_entry club d now db = do
  throw_if (is_empty (trim d.player_name)) (bad_request 0)
  throw_if (bad_party d.party_size) (bad_request 1)
  throw_if (bad_priority d.priority) (bad_request 2)
  throw_if (not (club_exists club db)) (not_found 0)
  throw_if (already_waiting club d.player_id db) (bad_request 3)
  let entry = new_entry db.next_id club d now
  ok (entry, record db { entries = entry ∷ db.entries; next_id = db.next_id + 1 })

-- `where: { id, club: { id: clubId } }`
unfoldable pub is_entry : ℕ → ℕ → WaitlistEntry → Bool
is_entry club id e = e.id == id && e.club_id == club

-- getWaitlistEntry
unfoldable pub get_waitlist_entry : ℕ → ℕ → Db → Result WaitlistEntry
unfolding is_entry
get_waitlist_entry club id db = or_throw (find? (is_entry club id) db.entries) (not_found 0)

-- `waitlistRepo.save(entry)` of a row that was read: the row with its key is replaced.
unfoldable pub save_entry : WaitlistEntry → Db → Db
save_entry e db = record db {
  entries = update_where (λ (o : WaitlistEntry). o.id == e.id) (λ _. e) db.entries;
}

-- The body of updateWaitlistEntry: a field is absent if it is undefined.
pub record EntryPatch : Type 0 where
  pub player_name : Option Text
  pub phone_number : Option Text
  pub email : Option Text
  pub party_size : Option ℤ
  pub priority : Option ℤ
  pub notes : Option Text
  pub table_type : Option Text

unfoldable pub blank_name : Option Text → Bool
blank_name none = false
blank_name (some s) = is_empty (trim s)

unfoldable pub below_one : Option ℤ → Bool
below_one none = false
below_one (some n) = ltb_ℤ n (pos 1)

-- `if (x !== undefined) field = x || null;`
unfoldable pub patch_text : Option Text → Option Text → Option Text
patch_text none old = old
patch_text (some s) old = non_empty (some s)

unfoldable pub patch_number : Option ℤ → ℕ → ℕ
patch_number none old = old
patch_number (some n) old = pos_part n

unfoldable pub patch_name : Option Text → Text → Text
patch_name none old = old
patch_name (some s) old = trim s

unfoldable pub patched : EntryPatch → WaitlistEntry → WaitlistEntry
patched d e = record e {
  player_name = patch_name d.player_name e.player_name;
  phone_number = patch_text d.phone_number e.phone_number;
  email = patch_text d.email e.email;
  party_size = patch_number d.party_size e.party_size;
  priority = patch_number d.priority e.priority;
  notes = patch_text d.notes e.notes;
  table_type = patch_text d.table_type e.table_type;
}

-- updateWaitlistEntry
unfoldable pub update_waitlist_entry : ℕ → ℕ → EntryPatch → Db → Result (WaitlistEntry × Db)
unfolding get_waitlist_entry patched save_entry
update_waitlist_entry club id d db = do
  entry ← get_waitlist_entry club id db
  throw_if (blank_name d.player_name) (bad_request 0)
  throw_if (below_one d.party_size) (bad_request 1)
  throw_if (bad_priority d.priority) (bad_request 2)
  ok (patched d entry, save_entry (patched d entry) db)

-- cancelWaitlistEntry
unfoldable pub cancel_waitlist_entry : ℕ → ℕ → ℕ → Db → Result (WaitlistEntry × Db)
unfolding get_waitlist_entry save_entry
cancel_waitlist_entry club id now db = do
  entry ← get_waitlist_entry club id db
  throw_if (is_seated entry.status) (bad_request 0)
  throw_if (is_cancelled entry.status) (bad_request 1)
  let entry' = record entry { status = WaitlistStatus.cancelled; cancelled_at = some now }
  ok (entry', save_entry entry' db)

-- deleteWaitlistEntry
unfoldable pub delete_waitlist_entry : ℕ → ℕ → Db → Result Db
unfolding get_waitlist_entry
delete_waitlist_entry club id db = do
  entry ← get_waitlist_entry club id db
  throw_if (is_seated entry.status) (bad_request 0)
  ok (record db { entries = delete_where (λ (o : WaitlistEntry). o.id == entry.id) db.entries })
