-- ===== src/Prelude/Strings.antt =====
-- Texts as lists of character codes, with the string operations of JavaScript that the source uses.
use Prim.Native.Nat.{ℕ, ◌+◌, ◌-◌, ◌*◌, compare, Ordering}
use Prim.Native.Char.{code}
use Prim.Native.String.{String}
use mathlib.Core.Path.{◌≡◌, refl, sym, ◌∙◌}
use mathlib.Core.Logic.{◌↔◌, inl, inr}
use mathlib.Core.Bool.{Bool, true, false, ◌&&◌, ◌||◌}
use mathlib.Core.Option.{Option, none, some}
use mathlib.Core.List.{List, [], ◌∷◌, reverse}
use native.Mathlib.Omega.{arith}
use chirpstack_simulator.Prelude.Tests.{if◌then◌else◌, ◌==◌, leb, Bool-cases}

abbrev pub Text : Type 0
Text = List ℕ

-- The codes of a literal.
abbrev pub codes : String → Text
codes String.[] = []
codes (String.◌∷◌ c s) = code c ∷ codes s

-- `===` on strings.
abbrev pub text_eq : Text → Text → Bool
text_eq [] [] = true
text_eq [] (y ∷ ys) = false
text_eq (x ∷ xs) [] = false
text_eq (x ∷ xs) (y ∷ ys) = x == y && text_eq xs ys

-- A string is true in a condition unless it is empty.
abbrev pub truthy : Text → Bool
truthy [] = false
truthy (x ∷ xs) = true

-- `a || b` on strings.
abbrev pub text_or : Text → Text → Text
text_or [] b = b
text_or (x ∷ xs) b = x ∷ xs

abbrev pub starts_with : Text → Text → Bool
starts_with [] s = true
starts_with (p ∷ ps) [] = false
starts_with (p ∷ ps) (c ∷ s) = p == c && starts_with ps s

-- `includes`, and `indexOf(…) !== -1`.
abbrev pub includes : Text → Text → Bool
includes q [] = starts_with q []
includes q (c ∷ s) = starts_with q (c ∷ s) || includes q s

-- `<` on strings: the first code that differs decides.
abbrev pub text_compare : Text → Text → Ordering
text_compare [] [] = Ordering.eq
text_compare [] (y ∷ ys) = Ordering.lt
text_compare (x ∷ xs) [] = Ordering.gt
text_compare (x ∷ xs) (y ∷ ys) = elim (compare x y) [
  | Ordering.lt ↦ Ordering.lt
  | Ordering.eq ↦ text_compare xs ys
  | Ordering.gt ↦ Ordering.gt
]

-- The white space and line ends that `trim` removes.
abbrev pub is_space : ℕ → Bool
is_space c =
    (leb 9 c && leb c 13)
    || c == 32
    || c == 160
    || c == 5760
    || (leb 8192 c && leb c 8202)
    || c == 8232
    || c == 8233
    || c == 8239
    || c == 8287
    || c == 12288
    || c == 65279

abbrev pub trim_start : Text → Text
trim_start [] = []
trim_start (c ∷ s) = if is_space c then trim_start s else c ∷ s

abbrev pub trim : Text → Text
trim s = reverse (trim_start (reverse (trim_start s)))

abbrev pub is_digit : ℕ → Bool
is_digit c = leb b'0' c && leb c b'9'

-- The digits at the front of a text, read in base ten after the value `acc`.
abbrev pub leading_digits : ℕ → Text → ℕ
leading_digits acc [] = acc
leading_digits acc (c ∷ s) =
    let rest = leading_digits (acc * 10 + (c - b'0')) s in if is_digit c then rest else acc

-- `parseInt(s, 10)` of a text with no sign: `none` is `NaN`.
abbrev pub parse_int : Text → Option ℕ
parse_int s = digits_of (trim_start s)
  where
    digits_of : Text → Option ℕ
    digits_of [] = none
    digits_of (c ∷ r) = if is_digit c then some (leading_digits 0 (c ∷ r)) else none

pub text_eq_refl : (a : Text) → text_eq a a ≡ true
text_eq_refl [] = refl
text_eq_refl (x ∷ xs) = ground (arith, text_eq_refl xs)

pub text_eq_iff : (a b : Text) → (text_eq a b ≡ true) ↔ (a ≡ b)
text_eq_iff a b = (to a b, λ e. rw e (text_eq_refl b))
  where
    to : (a b : Text) → text_eq a b ≡ true → a ≡ b
    to [] [] h = refl
    to [] (y ∷ ys) h = cc
    to (x ∷ xs) [] h = cc
    to (x ∷ xs) (y ∷ ys) h = ground (arith, to xs ys)

pub text_ne_sym : (a b : Text) → text_eq a b ≡ false → text_eq b a ≡ false
text_ne_sym a b e = elim (Bool-cases (text_eq b a)) [
  | inl k ↦
      let same : text_eq a b ≡ true = (text_eq_iff a b).1 (sym ((text_eq_iff b a).0 k)) in
      absurd (cc (sym e ∙ same))
  | inr k ↦ k
]
