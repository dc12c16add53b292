-- ===== src/Base/Rows.antt =====
-- The rows of a database table, as a list: the first row that satisfies a condition, the update of
-- the rows that satisfy one, and the laws of both.
use mathlib.Core.Path.{◌≡◌, ◌∙◌, refl, sym}
use mathlib.Core.Logic.{◌⊎◌, inl, inr}
use mathlib.Core.Bool.{Bool, true, false}
use mathlib.Core.Option.{Option, none, some, some-injective}
use mathlib.Core.List.{List, [], ◌∷◌, Memᴰ}
use native.Mathlib.Omega.{arith}
use poker_crm_backend.Base.Tests.{All, if◌then◌else◌, Bool-cases}

module _ {ℓ} {A : Type ℓ} where
  -- `findOne({ where })`, `SELECT … LIMIT 1`: the first row that satisfies the condition.
  unfoldable pub find? : (A → Bool) → List A → Option A
  find? p [] = none
  find? p (x ∷ xs) = if p x then some x else find? p xs

  -- `UPDATE … SET … WHERE`, and `save` of a row that is there.
  unfoldable pub update_where : (A → Bool) → (A → A) → List A → List A
  update_where p f [] = []
  update_where p f (x ∷ xs) = (if p x then f x else x) ∷ update_where p f xs

  -- `remove`, `DELETE … WHERE`.
  unfoldable pub delete_where : (A → Bool) → List A → List A
  delete_where p [] = []
  delete_where p (x ∷ xs) = if p x then delete_where p xs else x ∷ delete_where p xs

  -- `find({ where })`
  unfoldable pub select : (A → Bool) → List A → List A
  select p [] = []
  select p (x ∷ xs) = if p x then x ∷ select p xs else select p xs

  pub find?-sound : (p : A → Bool) (xs : List A) {x : A} → find? p xs ≡ some x → p x ≡ true
  unfolding find?
  find?-sound p [] h = cc
  find?-sound p (y ∷ ys) h = elim (Bool-cases (p y)) [
    | inl e ↦ ground arith
    | inr e ↦ find?-sound p ys (rw e at h)
  ]

  pub find?-mem : (p : A → Bool) (xs : List A) {x : A} → find? p xs ≡ some x → Memᴰ x xs
  unfolding find?
  find?-mem p [] h = cc
  find?-mem p (y ∷ ys) {x} h = elim (Bool-cases (p y)) [
    | inl e ↦ Memᴰ.head (ground arith)
    | inr e ↦ Memᴰ.tail (find?-mem p ys (rw e at h))
  ]

  pub find?-complete :
      (p : A → Bool) (xs : List A) (x : A) → find? p xs ≡ none → Memᴰ x xs → p x ≡ false
  unfolding find?
  find?-complete p [] x h m = elim m [ ]
  find?-complete p (y ∷ ys) x h (Memᴰ.head e) = rw e (ground arith)
  find?-complete p (y ∷ ys) x h (Memᴰ.tail m) = find?-complete p ys x (ground arith) m

  -- A row of the updated table is an old row that was passed over, or the new value of an old row.
  pub mem-update_where :
      (p : A → Bool) (f : A → A) (xs : List A) (x : A)
      → Memᴰ x (update_where p f xs)
      → (y : A) × Memᴰ y xs × ((p y ≡ true) × (x ≡ f y) ⊎ (p y ≡ false) × (x ≡ y))
  unfolding update_where
  mem-update_where p f [] x m = elim m [ ]
  mem-update_where p f (y ∷ ys) x (Memᴰ.head e) = elim (Bool-cases (p y)) [
    | inl h ↦ (y, Memᴰ.head refl, inl (h, ground arith))
    | inr h ↦ (y, Memᴰ.head refl, inr (h, ground arith))
  ]
  mem-update_where p f (y ∷ ys) x (Memᴰ.tail m) =
      let (z, k, e) = mem-update_where p f ys x m in (z, Memᴰ.tail k, e)

  pub All-update_where {κ} :
      (P : A → Type κ) (p : A → Bool) (f : A → A) (xs : List A)
      → ((x : A) → p x ≡ true → P x → P (f x))
      → All P xs
      → All P (update_where p f xs)
  unfolding update_where
  All-update_where P p f [] keep h = tt
  All-update_where P p f (x ∷ xs) keep h = elim (Bool-cases (p x)) [
    | inl e ↦ (rw e (keep x e h.0), All-update_where P p f xs keep h.1)
    | inr e ↦ (rw e h.0, All-update_where P p f xs keep h.1)
  ]

  pub All-delete_where {κ} :
      (P : A → Type κ) (p : A → Bool) (xs : List A) → All P xs → All P (delete_where p xs)
  unfolding delete_where
  All-delete_where P p [] h = tt
  All-delete_where P p (x ∷ xs) h = elim (Bool-cases (p x)) [
    | inl e ↦ rw e (All-delete_where P p xs h.1)
    | inr e ↦ rw e (h.0, All-delete_where P p xs h.1)
  ]

  pub All-mem {κ} : (P : A → Type κ) (xs : List A) {x : A} → All P xs → Memᴰ x xs → P x
  All-mem P [] h m = elim m [ ]
  All-mem P (y ∷ ys) h (Memᴰ.head e) = rw e h.0
  All-mem P (y ∷ ys) h (Memᴰ.tail m) = All-mem P ys h.1 m

  mem_cons_cases : (x y : A) (ys : List A) → Memᴰ x (y ∷ ys) → (x ≡ y) ⊎ Memᴰ x ys
  mem_cons_cases x y ys (Memᴰ.head e) = inl e
  mem_cons_cases x y ys (Memᴰ.tail m) = inr m

  pub mem-delete_where :
      (p : A → Bool) (xs : List A) (x : A) → Memᴰ x (delete_where p xs) → Memᴰ x xs
  unfolding delete_where
  mem-delete_where p [] x m = elim m [ ]
  mem-delete_where p (y ∷ ys) x m = elim (Bool-cases (p y)) [
    | inl e ↦ Memᴰ.tail (mem-delete_where p ys x (rw e at m))
    | inr e ↦ elim (mem_cons_cases x y (delete_where p ys) (rw e at m)) [
      | inl h ↦ Memᴰ.head h
      | inr h ↦ Memᴰ.tail (mem-delete_where p ys x h)
    ]
  ]

  -- The row that a condition finds is found, updated, by the same condition, where the update
  -- keeps the condition.
  pub find?-update_where :
      (p : A → Bool) (f : A → A) (xs : List A) {x : A}
      → p (f x) ≡ true
      → find? p xs ≡ some x
      → find? p (update_where p f xs) ≡ some (f x)
  unfolding find? update_where
  find?-update_where p f [] keep h = cc
  find?-update_where p f (y ∷ ys) {x} keep h = elim (Bool-cases (p y)) [
    | inl e ↦ let same : some y ≡ some x = (rw e at h) in rw (e, some-injective y x same, keep)
    | inr e ↦ rw (e, e) (find?-update_where p f ys keep (rw e at h))
  ]

  -- The same with an update by a weaker condition, which keeps the stronger one on every row.
  pub find?-update_implied :
      (p q : A → Bool) (f : A → A) (xs : List A) {x : A}
      → ((y : A) → p y ≡ true → q y ≡ true)
      → ((y : A) → p (f y) ≡ p y)
      → find? p xs ≡ some x
      → find? p (update_where q f xs) ≡ some (f x)
  unfolding find? update_where
  find?-update_implied p q f [] weaker keep h = cc
  find?-update_implied p q f (y ∷ ys) {x} weaker keep h = elim (Bool-cases (p y)) [
    | inl e ↦
        let same : some y ≡ some x = (rw e at h) in
        rw (weaker y e, keep y, e, some-injective y x same)
    | inr e ↦ elim (Bool-cases (q y)) [
      | inl e' ↦ rw (e', keep y, e) (find?-update_implied p q f ys weaker keep (rw e at h))
      | inr e' ↦ rw (e', e) (find?-update_implied p q f ys weaker keep (rw e at h))
    ]
  ]

  -- A condition that a row meets finds some row.
  pub find?-weaker :
      (p q : A → Bool) (xs : List A) {x : A}
      → ((y : A) → p y ≡ true → q y ≡ true)
      → find? p xs ≡ some x
      → (y : A) × (find? q xs ≡ some y)
  unfolding find?
  find?-weaker p q [] weaker h = cc
  find?-weaker p q (y ∷ ys) weaker h = elim (Bool-cases (q y)) [
    | inl e ↦ (y, rw e refl)
    | inr e ↦ elim (Bool-cases (p y)) [
      | inl e' ↦ let clash : false ≡ true = (sym e ∙ weaker y e') in cc
      | inr e' ↦ let (z, k) = find?-weaker p q ys weaker (rw e' at h) in (z, rw e k)
    ]
  ]

  -- The row that is saved over the one that was found is found by the same condition.
  pub find?-saved :
      (p q : A → Bool) (x' : A) (xs : List A) {x : A}
      → ((y : A) → p y ≡ true → q y ≡ true)
      → p x' ≡ true
      → find? p xs ≡ some x
      → find? p (update_where q (λ _. x') xs) ≡ some x'
  unfolding find? update_where
  find?-saved p q x' [] weaker there h = cc
  find?-saved p q x' (y ∷ ys) weaker there h = elim (Bool-cases (q y)) [
    | inl e ↦ rw (e, there) refl
    | inr e ↦ elim (Bool-cases (p y)) [
      | inl e' ↦ let clash : false ≡ true = (sym e ∙ weaker y e') in cc
      | inr e' ↦ rw (e, e') (find?-saved p q x' ys weaker there (rw e' at h))
    ]
  ]

  -- An update that keeps a condition of every row keeps which row it finds.
  pub find?-update_keep :
      (p q : A → Bool) (f : A → A) (xs : List A) {x : A}
      → ((y : A) → p (f y) ≡ p y)
      → find? p xs ≡ some x
      → find? p (update_where q f xs) ≡ some (if q x then f x else x)
  unfolding find? update_where
  find?-update_keep p q f [] keep h = cc
  find?-update_keep p q f (y ∷ ys) {x} keep h = elim (Bool-cases (p y)) [
    | inl e ↦
        let same : some y ≡ some x = (rw e at h) in
        let here = some-injective y x same in
        elim (Bool-cases (q y)) [
          | inl e' ↦ rw (e', keep y, e, ← here, e') refl
          | inr e' ↦ rw (e', e, ← here, e') refl
        ]
    | inr e ↦ elim (Bool-cases (q y)) [
      | inl e' ↦ rw (e', keep y, e) (find?-update_keep p q f ys keep (rw e at h))
      | inr e' ↦ rw (e', e) (find?-update_keep p q f ys keep (rw e at h))
    ]
  ]

  -- A row that is saved over others leaves alone what another condition finds.
  pub find?-update_other :
      (p q : A → Bool) (x' : A) (xs : List A)
      → p x' ≡ false
      → ((y : A) → q y ≡ true → p y ≡ false)
      → find? p (update_where q (λ _. x') xs) ≡ find? p xs
  unfolding find? update_where
  find?-update_other p q x' [] away apart = refl
  find?-update_other p q x' (y ∷ ys) away apart = elim (Bool-cases (q y)) [
    | inl e ↦ rw (e, away, apart y e) (find?-update_other p q x' ys away apart)
    | inr e ↦ elim (Bool-cases (p y)) [
      | inl e' ↦ rw (e, e') refl
      | inr e' ↦ rw (e, e') (find?-update_other p q x' ys away apart)
    ]
  ]
