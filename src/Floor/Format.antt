-- ===== src/Floor/Format.antt =====
-- How JavaScript prints the numbers that the services put into notes: the runtime's, a parameter.
use poker_crm_backend.Base.{
  ℕ, ◌≤◌, ◌≡◌, refl, arith, Bool, true, ◌&&◌, ◌||◌, Option, none, some, [], ◌∷◌, ◌==◌, leb,
}
use poker_crm_backend.Base.Int.{ℤ}
use poker_crm_backend.Base.Text.{Text, codes, has, lower, Lacks}

-- The characters of a printed finite number: digits, the point, the signs and the exponent.
unfoldable pub is_number_char : ℕ → Bool
is_number_char c =
    leb b'0' c && leb c b'9' || c == b'.' || c == b'-' || c == b'+' || c == b'e' || c == b','

unfoldable pub all_number_chars : Text → Bool
unfolding is_number_char
all_number_chars [] = true
all_number_chars (c ∷ s) = is_number_char c && all_number_chars s

-- `String(n)` and `n.toFixed(2)` of an amount, and `String(n)` of an integer.
pub record NumberFormat : Type 0 where
  pub amount_text : ℤ → Text
  pub fixed_text : ℤ → Text
  pub int_text : ℕ → Text
  pub amount_text_plain : (a : ℤ) → all_number_chars (amount_text a) ≡ true
  pub fixed_text_plain : (a : ℤ) → all_number_chars (fixed_text a) ≡ true
  pub int_text_plain : (n : ℕ) → all_number_chars (int_text n) ≡ true

-- A printed number lacks every letter but e.
pub plain-Lacks : (k : ℕ) (s : Text) → b'f' ≤ k → all_number_chars s ≡ true → Lacks k s
unfolding all_number_chars has lower
plain-Lacks k [] above h = refl
plain-Lacks k (c ∷ s) above h = ground (arith, plain-Lacks k s above)

-- `${n}` of an optional integer.
unfoldable pub opt_text : NumberFormat → Option ℕ → Text
opt_text fmt none = codes "null"
opt_text fmt (some n) = fmt.int_text n

pub opt_text-Lacks :
    (fmt : NumberFormat) (k : ℕ) (n : Option ℕ) → b'v' ≤ k → Lacks k (opt_text fmt n)
unfolding opt_text has lower
opt_text-Lacks fmt k none above = ground arith
opt_text-Lacks fmt k (some n) above =
    plain-Lacks k (fmt.int_text n) (omega arith) (fmt.int_text_plain n)

pub amount_text-Lacks :
    (fmt : NumberFormat) (k : ℕ) (a : ℤ) → b'f' ≤ k → Lacks k (fmt.amount_text a)
amount_text-Lacks fmt k a above = plain-Lacks k (fmt.amount_text a) above (fmt.amount_text_plain a)

pub fixed_text-Lacks : (fmt : NumberFormat) (k : ℕ) (a : ℤ) → b'f' ≤ k → Lacks k (fmt.fixed_text a)
fixed_text-Lacks fmt k a above = plain-Lacks k (fmt.fixed_text a) above (fmt.fixed_text_plain a)

pub int_text-Lacks : (fmt : NumberFormat) (k : ℕ) (n : ℕ) → b'f' ≤ k → Lacks k (fmt.int_text n)
int_text-Lacks fmt k n above = plain-Lacks k (fmt.int_text n) above (fmt.int_text_plain n)
