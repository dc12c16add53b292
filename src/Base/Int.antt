-- ===== src/Base/Int.antt =====
-- Signed integers over the native numbers, for amounts of money and for instants. The unit of an
-- amount is a ten-thousandth of a rupee, the smallest number that the services write (0.0001).
use Prim.Native.Nat.{ℕ, suc, ◌+◌, ◌-◌, ◌≤◌, ◌/◌}
use mathlib.Core.Path.{◌≡◌}
use mathlib.Core.Logic.{◌⊎◌}
use mathlib.Core.Bool.{Bool, true, false}
use native.Mathlib.Omega.{arith}
use poker_crm_backend.Base.Tests.{ltb, leb, if◌then◌else◌, ◌==◌}

-- `negsuc n` is -(n + 1).
pub data ℤ : Type 0 where
  pos : ℕ → ℤ
  negsuc : ℕ → ℤ

abbrev pub pos_part : ℤ → ℕ
pos_part (pos n) = n
pos_part (negsuc _) = 0

abbrev pub neg_part : ℤ → ℕ
neg_part (pos _) = 0
neg_part (negsuc n) = suc n

abbrev pub sub_ℕ : ℕ → ℕ → ℤ
sub_ℕ a b = if leb b a then pos (a - b) else negsuc (b - a - 1)

infixl 65 ◌+ℤ◌ ◌-ℤ◌
infix 50 ◌≤ℤ◌ ◌<ℤ◌
unfoldable pub ◌+ℤ◌ : ℤ → ℤ → ℤ
a +ℤ b = sub_ℕ (pos_part a + pos_part b) (neg_part a + neg_part b)

unfoldable pub ◌-ℤ◌ : ℤ → ℤ → ℤ
a -ℤ b = sub_ℕ (pos_part a + neg_part b) (neg_part a + pos_part b)

unfoldable pub neg : ℤ → ℤ
neg a = sub_ℕ (neg_part a) (pos_part a)

abbrev pub ◌≤ℤ◌ : ℤ → ℤ → Type 0
a ≤ℤ b = pos_part a + neg_part b ≤ pos_part b + neg_part a

abbrev pub ◌<ℤ◌ : ℤ → ℤ → Type 0
a <ℤ b = suc (pos_part a + neg_part b) ≤ pos_part b + neg_part a

abbrev pub ltb_ℤ : ℤ → ℤ → Bool
ltb_ℤ a b = ltb (pos_part a + neg_part b) (pos_part b + neg_part a)

abbrev pub leb_ℤ : ℤ → ℤ → Bool
leb_ℤ a b = leb (pos_part a + neg_part b) (pos_part b + neg_part a)

abbrev pub eqb_ℤ : ℤ → ℤ → Bool
eqb_ℤ a b = pos_part a + neg_part b == pos_part b + neg_part a

-- `Math.min` and `Math.max`.
unfoldable pub min_ℤ : ℤ → ℤ → ℤ
min_ℤ a b = if leb_ℤ a b then a else b

unfoldable pub max_ℤ : ℤ → ℤ → ℤ
max_ℤ a b = if leb_ℤ a b then b else a

-- `Math.floor(a / 1000)`.
unfoldable pub floor_thousandth : ℤ → ℤ
floor_thousandth (pos n) = pos (n / 1000)
floor_thousandth (negsuc n) = negsuc (n / 1000)

-- One law for each operation, through which `omega` and `grind` work with it shut.
pub +ℤ_parts :
    (a b : ℤ)
    → pos_part (a +ℤ b) + neg_part a + neg_part b ≡ neg_part (a +ℤ b) + pos_part a + pos_part b
unfolding ◌+ℤ◌
+ℤ_parts a b = ground arith

pub -ℤ_parts :
    (a b : ℤ)
    → pos_part (a -ℤ b) + neg_part a + pos_part b ≡ neg_part (a -ℤ b) + pos_part a + neg_part b
unfolding ◌-ℤ◌
-ℤ_parts a b = ground arith

pub neg_parts : (a : ℤ) → pos_part (neg a) + pos_part a ≡ neg_part (neg a) + neg_part a
unfolding neg
neg_parts a = ground arith

pub eq_of_parts : (a b : ℤ) → pos_part a + neg_part b ≡ pos_part b + neg_part a → a ≡ b
eq_of_parts a b h = ground arith

-- A minimum or maximum is the one argument or the other, with the order between them.
abbrev pub IsPart : ℤ → ℤ → Type 0
IsPart a b = (pos_part a ≡ pos_part b) × (neg_part a ≡ neg_part b)

pub min_ℤ_parts : (a b : ℤ) → (a ≤ℤ b) × IsPart (min_ℤ a b) a ⊎ (b <ℤ a) × IsPart (min_ℤ a b) b
unfolding min_ℤ
min_ℤ_parts a b = ground arith

pub max_ℤ_parts : (a b : ℤ) → (a ≤ℤ b) × IsPart (max_ℤ a b) b ⊎ (b <ℤ a) × IsPart (max_ℤ a b) a
unfolding max_ℤ
max_ℤ_parts a b = ground arith

pub ruleset int_laws = (arith, +ℤ_parts, -ℤ_parts, neg_parts, eq_of_parts)

pub ruleset bound_laws = (int_laws, min_ℤ_parts, max_ℤ_parts)

pub pos-+ℤ : (a : ℤ) → pos 0 +ℤ a ≡ a
pos-+ℤ a = omega int_laws

pub +ℤ-zero : (a : ℤ) → a +ℤ pos 0 ≡ a
+ℤ-zero a = omega int_laws

pub floor_thousandth_mono : (a b : ℤ) → a ≤ℤ b → floor_thousandth a ≤ℤ floor_thousandth b
unfolding floor_thousandth
floor_thousandth_mono (pos a) (pos b) h = omega arith
floor_thousandth_mono (pos a) (negsuc b) h = absurd (omega arith)
floor_thousandth_mono (negsuc a) (pos b) h = omega arith
floor_thousandth_mono (negsuc a) (negsuc b) h = omega arith

-- An integer is nonnegative, or below zero: the split that the tests `a < 0` make.
pub leb_ℤ_cases : (a b : ℤ) → (leb_ℤ a b ≡ true) × (a ≤ℤ b) ⊎ (leb_ℤ a b ≡ false) × (b <ℤ a)
leb_ℤ_cases a b = ground arith

pub ltb_ℤ_cases : (a b : ℤ) → (ltb_ℤ a b ≡ true) × (a <ℤ b) ⊎ (ltb_ℤ a b ≡ false) × (b ≤ℤ a)
ltb_ℤ_cases a b = ground arith

pub not_ltb_ℤ : (a b : ℤ) → ltb_ℤ a b ≡ false → b ≤ℤ a
not_ltb_ℤ a b h = ground arith

pub not_leb_ℤ : (a b : ℤ) → leb_ℤ a b ≡ false → b <ℤ a
not_leb_ℤ a b h = ground arith
