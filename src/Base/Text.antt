-- ===== src/Base/Text.antt =====
-- Texts as lists of code points: what the services and their SQL compute of names and notes.
use Prim.Native.Nat.{ℕ, zero, suc, ◌+◌}
use Prim.Native.Char.{code}
use Prim.Native.String.{String}
use mathlib.Core.Path.{◌≡◌, refl}
use mathlib.Core.Bool.{Bool, true, false, ◌&&◌, ◌||◌}
use mathlib.Core.List.{List, [], ◌∷◌, ◌++◌, reverse}
use native.Mathlib.Omega.{arith}
use poker_crm_backend.Base.Tests.{leb, ◌==◌, if◌then◌else◌}

abbrev pub Text : Type 0
Text = List ℕ

abbrev pub codes : String → Text
codes String.[] = []
codes (String.◌∷◌ c s) = code c ∷ codes s

abbrev pub is_empty : Text → Bool
is_empty [] = true
is_empty (_ ∷ _) = false

abbrev pub text_length : Text → ℕ
text_length [] = 0
text_length (_ ∷ s) = suc (text_length s)

-- The white space of JavaScript: what `trim` removes and `\s` matches.
unfoldable pub is_space : ℕ → Bool
is_space c =
    leb 9 c && leb c 13
    || c == 32
    || c == 160
    || c == 0x1680
    || leb 0x2000 c && leb c 0x200a
    || c == 0x2028
    || c == 0x2029
    || c == 0x202f
    || c == 0x205f
    || c == 0x3000
    || c == 0xfeff

unfoldable pub trim_start : Text → Text
unfolding is_space
trim_start [] = []
trim_start (c ∷ s) = if is_space c then trim_start s else c ∷ s

unfoldable pub trim : Text → Text
unfolding trim_start
trim s = reverse (trim_start (reverse (trim_start s)))

-- `s.substring(0, n)` and `s.replace(/\|/g, ' ')`.
unfoldable pub take_text : ℕ → Text → Text
take_text zero s = []
take_text (suc n) [] = []
take_text (suc n) (c ∷ s) = c ∷ take_text n s

unfoldable pub no_bars : Text → Text
no_bars [] = []
no_bars (c ∷ s) = (if c == b'|' then 32 else c) ∷ no_bars s

-- ASCII case folding, of SQL's `lower` and of the flag `i` of a regular expression.
unfoldable pub lower_code : ℕ → ℕ
lower_code c = if leb 65 c && leb c 90 then c + 32 else c

unfoldable pub lower : Text → Text
unfolding lower_code
lower [] = []
lower (c ∷ s) = lower_code c ∷ lower s

unfoldable pub starts_with : Text → Text → Bool
starts_with [] s = true
starts_with (a ∷ p) [] = false
starts_with (a ∷ p) (c ∷ s) = a == c && starts_with p s

-- `strpos(s, p) > 0`, and `s.includes(p)`, at a text `p` that is not empty.
unfoldable pub contains : Text → Text → Bool
unfolding starts_with
contains p [] = is_empty p
contains p (c ∷ s) = starts_with p (c ∷ s) || contains p s

-- The code point occurs in the text.
unfoldable pub has : ℕ → Text → Bool
has k [] = false
has k (c ∷ s) = k == c || has k s

pub starts_with-append : (p s : Text) → starts_with p (p ++ s) ≡ true
unfolding starts_with
starts_with-append [] s = refl
starts_with-append (a ∷ p) s = ground (arith, starts_with-append p s)

-- A text that is pasted into another is found there.
pub contains-append : (r p s : Text) → contains p (r ++ (p ++ s)) ≡ true
unfolding contains
contains-append [] [] [] = refl
contains-append [] [] (c ∷ s) = refl
contains-append [] (a ∷ p) s = ground (arith, starts_with-append p s)
contains-append (c ∷ r) p s = ground (arith, contains-append r p s)

starts_with_absent :
    (k : ℕ) (p s : Text) → has k p ≡ true → has k s ≡ false → starts_with p s ≡ false
unfolding starts_with has
starts_with_absent k [] s h h' = cc
starts_with_absent k (a ∷ p) [] h h' = refl
starts_with_absent k (a ∷ p) (c ∷ s) h h' = ground (arith, starts_with_absent k p s)

-- A text that lacks a code point of the pattern does not contain the pattern.
pub contains_absent : (k : ℕ) (p s : Text) → has k p ≡ true → has k s ≡ false → contains p s ≡ false
unfolding contains has
contains_absent k [] s h h' = cc
contains_absent k (a ∷ p) [] h h' = refl
contains_absent k (a ∷ p) (c ∷ s) h h' =
    ground (arith, starts_with_absent k (a ∷ p) (c ∷ s) h h', contains_absent k (a ∷ p) s h)

pub has-append : (k : ℕ) (r s : Text) → has k (r ++ s) ≡ (has k r || has k s)
unfolding has
has-append k [] s = refl
has-append k (c ∷ r) s = ground (arith, has-append k r s)

pub lower-append : (r s : Text) → lower (r ++ s) ≡ lower r ++ lower s
unfolding lower
lower-append [] s = refl
lower-append (c ∷ r) s = simp (lower-append r s)

-- In lower case, the text has no such letter.
abbrev pub Lacks : ℕ → Text → Type 0
Lacks k s = has k (lower s) ≡ false

pub Lacks-append : (k : ℕ) (r s : Text) → Lacks k r → Lacks k s → Lacks k (r ++ s)
unfolding has
Lacks-append k r s hr hs = rw (lower-append r s, has-append k (lower r) (lower s), hr) hs

-- A text that lacks `w` has no `W` either.
pub Lacks-has_upper : (s : Text) → Lacks b'w' s → has b'W' s ≡ false
unfolding has lower
Lacks-has_upper [] h = refl
Lacks-has_upper (c ∷ s) h = ground (arith, Lacks-has_upper s)
