-- ===== src/Floor/Seating/Places.antt =====
-- No two players are seated at one place: the check of assignSeat in
-- src/clubs/services/waitlist-seating.service.ts and what the other operations leave of it.
use poker_crm_backend.Base.{
  ℕ, ◌≡◌, ◌≢◌, refl, sym, ◌∙◌, arith, inl, inr, Bool, true, false, Option, some, List, ◌∷◌, Memᴰ,
  Option-cases, ◌==◌,
}
use poker_crm_backend.Base.Rows.{
  find?, find?-mem, find?-sound, find?-complete, update_where, mem-update_where, delete_where,
  mem-delete_where,
}
use poker_crm_backend.Entities.{Table, WaitlistEntry, WaitlistStatus}
use poker_crm_backend.Floor.Seating.Checks.{sits_at, is_other, seat_taken, seated_entry}

-- The entry is seated in the club at the seat of the table with the number.
pub record SitsAt (club number seat : ℕ) (e : WaitlistEntry) : Type 0 where
  pub in_club : e.club_id ≡ club
  pub is_seated : e.status ≡ WaitlistStatus.seated
  pub at_table : e.table_number ≡ some number
  pub at_seat : e.assigned_seat ≡ some seat

-- Two seated entries at one place are the same entry.
abbrev pub ArePlacesDistinct : List WaitlistEntry → Type 0
ArePlacesDistinct es =
    (club number seat : ℕ) (e f : WaitlistEntry)
    → Memᴰ e es
    → Memᴰ f es
    → SitsAt club number seat e
    → SitsAt club number seat f
    → e.id ≡ f.id

pub SitsAt-sits_at :
    (club number seat : ℕ) (e : WaitlistEntry)
    → SitsAt club number seat e
    → sits_at club number seat e ≡ true
unfolding sits_at
SitsAt-sits_at club number seat e h = ground arith

pub sits_at-SitsAt :
    (club number seat : ℕ) (e : WaitlistEntry)
    → sits_at club number seat e ≡ true
    → SitsAt club number seat e
unfolding sits_at
sits_at-SitsAt club number seat e h = ground arith

other_id : (o : WaitlistEntry) (id : ℕ) → is_other (some o) id ≡ false → id ≡ o.id
unfolding is_other
other_id o id h = ground arith

-- A seat that is not taken has no one in it but the entry itself.
pub free_seat :
    (club seat : ℕ) (table : Table) (entry f : WaitlistEntry) (es : List WaitlistEntry)
    → ArePlacesDistinct es
    → seat_taken club table entry (some seat) es ≡ false
    → Memᴰ f es
    → SitsAt club table.table_number seat f
    → entry.id ≡ f.id
unfolding seat_taken
free_seat club seat table entry f es distinct free m s =
    elim (Option-cases (find? (sits_at club table.table_number seat) es)) [
      | inl e ↦
          let no_one = find?-complete (sits_at club table.table_number seat) es f e m in
          cc (SitsAt-sits_at club table.table_number seat f s)
      | inr (o, e) ↦
          let there = sits_at-SitsAt club table.table_number seat o (find?-sound _ es e) in
          let same = distinct club table.table_number seat o f (find?-mem _ es e) m there s in
          let here : is_other (some o) entry.id ≡ false = (rw e at free) in
          other_id o entry.id here ∙ same
    ]

-- One row is replaced by a new version. Where the new version sits at a place, every other row
-- there is the same entry.
pub replace-ArePlacesDistinct :
    (e' : WaitlistEntry) (es : List WaitlistEntry)
    → ((club number seat : ℕ) (f : WaitlistEntry)
        → Memᴰ f es
        → SitsAt club number seat e'
        → SitsAt club number seat f
        → e'.id ≡ f.id)
    → ArePlacesDistinct es
    → ArePlacesDistinct (update_where (λ (o : WaitlistEntry). o.id == e'.id) (λ _. e') es)
replace-ArePlacesDistinct e' es alone distinct club number seat x y mx my sx sy =
    let (a, ma, ca) = mem-update_where (λ (o : WaitlistEntry). o.id == e'.id) (λ _. e') es x mx in
    let (b, mb, cb) = mem-update_where (λ (o : WaitlistEntry). o.id == e'.id) (λ _. e') es y my in
    elim ca [
      | inl (_, ex) ↦ elim cb [
        | inl (_, ey) ↦ rw (ex, ey) refl
        | inr (_, ey) ↦ rw ex (alone club number seat y (rw (← ey) at mb) (rw ex at sx) sy)
      ]
      | inr (_, ex) ↦ elim cb [
        | inl (_, ey) ↦ rw ey (sym (alone club number seat x (rw (← ex) at ma) (rw ey at sy) sx))
        | inr (_, ey) ↦ distinct club number seat x y (rw (← ex) at ma) (rw (← ey) at mb) sx sy
      ]
    ]

-- A row that no longer sits where it did, or stays where it was, leaves the places distinct.
pub keep-ArePlacesDistinct :
    (e e' : WaitlistEntry) (es : List WaitlistEntry)
    → Memᴰ e es
    → e'.id ≡ e.id
    → ((club number seat : ℕ) → SitsAt club number seat e' → SitsAt club number seat e)
    → ArePlacesDistinct es
    → ArePlacesDistinct (update_where (λ (o : WaitlistEntry). o.id == e'.id) (λ _. e') es)
keep-ArePlacesDistinct e e' es m same stays distinct =
    replace-ArePlacesDistinct e' es
      (λ club number seat f mf s' sf.
        same ∙ distinct club number seat e f m mf (stays club number seat s') sf)
      distinct

-- Rows that leave their seats leave the places distinct.
pub leave-ArePlacesDistinct :
    (p : WaitlistEntry → Bool) (f : WaitlistEntry → WaitlistEntry) (es : List WaitlistEntry)
    → ((e : WaitlistEntry) → (f e).status ≢ WaitlistStatus.seated)
    → ArePlacesDistinct es
    → ArePlacesDistinct (update_where p f es)
leave-ArePlacesDistinct p f es gone distinct club number seat x y mx my sx sy =
    let (a, ma, ca) = mem-update_where p f es x mx in
    let (b, mb, cb) = mem-update_where p f es y my in
    elim ca [
      | inl (_, ex) ↦ absurd (gone a (rw (← ex) sx.is_seated))
      | inr (_, ex) ↦ elim cb [
        | inl (_, ey) ↦ absurd (gone b (rw (← ey) sy.is_seated))
        | inr (_, ey) ↦ distinct club number seat x y (rw (← ex) at ma) (rw (← ey) at mb) sx sy
      ]
    ]

-- A new row that is not seated leaves the places distinct.
pub cons-ArePlacesDistinct :
    (e : WaitlistEntry) (es : List WaitlistEntry)
    → e.status ≢ WaitlistStatus.seated
    → ArePlacesDistinct es
    → ArePlacesDistinct (e ∷ es)
cons-ArePlacesDistinct e es away distinct club number seat x y (Memᴰ.head h) my sx sy =
    absurd (away (rw (← h) sx.is_seated))
cons-ArePlacesDistinct e es away distinct club number seat x y (Memᴰ.tail mx) (Memᴰ.head h) sx sy =
    absurd (away (rw (← h) sy.is_seated))
cons-ArePlacesDistinct e es away distinct club number seat x y (Memᴰ.tail mx) (Memᴰ.tail my) sx sy =
    distinct club number seat x y mx my sx sy

pub delete-ArePlacesDistinct :
    (p : WaitlistEntry → Bool) (es : List WaitlistEntry)
    → ArePlacesDistinct es
    → ArePlacesDistinct (delete_where p es)
delete-ArePlacesDistinct p es distinct club number seat x y mx my sx sy =
    distinct club number seat x y (mem-delete_where p es x mx) (mem-delete_where p es y my) sx sy

-- The entry that assignSeat saves sits where the seat was found free.
pub seated-ArePlacesDistinct :
    (club : ℕ) (table : Table) (entry : WaitlistEntry) (seat : Option ℕ) (seated_by now : ℕ)
    (es : List WaitlistEntry)
    → entry.club_id ≡ club
    → seat_taken club table entry seat es ≡ false
    → ArePlacesDistinct es
    → let e' = seated_entry table seat seated_by now entry in
      ArePlacesDistinct (update_where (λ (o : WaitlistEntry). o.id == e'.id) (λ _. e') es)
unfolding seated_entry
seated-ArePlacesDistinct club table entry seat seated_by now es own free distinct =
    replace-ArePlacesDistinct (seated_entry table seat seated_by now entry) es alone distinct
  where
    alone :
        (c n s : ℕ) (f : WaitlistEntry)
        → Memᴰ f es
        → SitsAt c n s (seated_entry table seat seated_by now entry)
        → SitsAt c n s f
        → entry.id ≡ f.id
    alone c n s f m s' sf =
        free_seat club s table entry f es distinct (rw (← s'.at_seat) free) m (record {
          in_club = sf.in_club ∙ sym s'.in_club ∙ own;
          is_seated = sf.is_seated;
          at_table = sf.at_table ∙ sym s'.at_table;
          at_seat = sf.at_seat;
        })
