-- ===== src/Prelude/Decimals.antt =====
-- Numbers as texts in base ten: how JavaScript prints an integer, and `parseInt(s, 10)`.
use chirpstack_simulator.Prelude.Tests.{Bool-cases, ltb→lt, ltb, ◌==◌, if◌then◌else◌}
use chirpstack_simulator.Prelude.Strings.{
  Text, is_digit, leading_digits, trim_start, is_space, truthy,
}
use chirpstack_simulator.Prelude.Lists.{All}
use chirpstack_simulator.Prelude.Int.{ℤ, pos, negsuc}
use Prim.Native.Nat.{ℕ, zero, suc, ◌+◌, ◌-◌, ◌*◌, ◌/◌, ◌%◌, ◌^◌, ◌<◌}
use mathlib.Core.Path.{◌≡◌, refl, ap, ◌∙◌}
use mathlib.Core.Bool.{true, false}
use mathlib.Core.Option.{Option, none, some}
use mathlib.Core.Option as Option
use mathlib.Core.List.{[], ◌∷◌, ◌++◌}
use mathlib.Core.Logic.{inl, inr}
use native.Mathlib.Omega.{arith}

-- The last `k` digits at most, of a number of no more digits.
unfoldable pub show_digits : ℕ → ℕ → Text
show_digits zero n = []
show_digits (suc k) n =
    let rest = show_digits k (n / 10) in
    if ltb n 10 then (b'0' + n) ∷ [] else rest ++ (b'0' + n % 10) ∷ []

-- From 10^21 on JavaScript prints an exponent.
unfoldable pub show_ℤ : ℤ → Text
show_ℤ (pos n) = show_digits 21 n
show_ℤ (negsuc n) = b'-' ∷ show_digits 21 (n + 1)

unfoldable pub unsigned : Text → Option ℕ
unsigned [] = none
unsigned (c ∷ s) = if is_digit c then some (leading_digits 0 (c ∷ s)) else none

abbrev pub negate : ℕ → ℤ
negate zero = pos 0
negate (suc n) = negsuc n

unfoldable pub signed : Text → Option ℤ
signed [] = none
signed (c ∷ s) =
    if c == b'-'
    then Option.map negate (unsigned s)
    else if c == b'+'
    then Option.map pos (unsigned s)
    else Option.map pos (unsigned (c ∷ s))

-- `parseInt(s, 10)` with a sign: `none` is `NaN`. A zero with a sign is 0.
unfoldable pub parse_ℤ : Text → Option ℤ
parse_ℤ s = signed (trim_start s)

abbrev pub magnitude : ℤ → ℕ
magnitude (pos n) = n
magnitude (negsuc n) = n + 1

leading_digits-append :
    (acc : ℕ) (xs : Text) (d : ℕ)
    → All (λ c. is_digit c ≡ true) xs
    → is_digit d ≡ true
    → leading_digits acc (xs ++ d ∷ []) ≡ leading_digits acc xs * 10 + (d - b'0')
leading_digits-append acc [] d a e = rw e refl
leading_digits-append acc (c ∷ xs) d a e =
    simp (a.0) (leading_digits-append (acc * 10 + (c - b'0')) xs d a.1 e)

All-snoc :
    (xs : Text) (d : ℕ)
    → All (λ c. is_digit c ≡ true) xs
    → is_digit d ≡ true
    → All (λ c. is_digit c ≡ true) (xs ++ d ∷ [])
All-snoc [] d a e = (e, tt)
All-snoc (c ∷ xs) d a e = (a.0, All-snoc xs d a.1 e)

is_digit-add : (n : ℕ) → n < 10 → is_digit (b'0' + n) ≡ true
is_digit-add n h = ground arith

show_digits-All : (k n : ℕ) → All (λ c. is_digit c ≡ true) (show_digits k n)
unfolding show_digits
show_digits-All zero n = tt
show_digits-All (suc k) n = elim (Bool-cases (ltb n 10)) [
  | inl e ↦ rw e (is_digit-add n (ltb→lt n 10 e), tt)
  | inr e ↦ rw e (
      All-snoc (show_digits k (n / 10)) (b'0' + n % 10) (show_digits-All k (n / 10))
        (is_digit-add (n % 10) (omega arith)))
]

leading_digits-show_digits : (k n : ℕ) → n < 10 ^ k → leading_digits 0 (show_digits k n) ≡ n
unfolding show_digits
leading_digits-show_digits zero n h = omega (arith, h)
leading_digits-show_digits (suc k) n h = elim (Bool-cases (ltb n 10)) [
  | inl e ↦ rw (e, is_digit-add n (ltb→lt n 10 e)) (omega arith)
  | inr e ↦
      let ih = leading_digits-show_digits k (n / 10) (omega (arith, h)) in
      rw e (
        leading_digits-append 0 (show_digits k (n / 10)) (b'0' + n % 10)
          (show_digits-All k (n / 10)) (is_digit-add (n % 10) (omega arith))
        ∙ omega (arith, ih))
]

-- A text of digits, not empty.
abbrev Digits : Text → Type 0
Digits s = (truthy s ≡ true) × All (λ c. is_digit c ≡ true) s

truthy-snoc : (xs : Text) (d : ℕ) → truthy (xs ++ d ∷ []) ≡ true
truthy-snoc [] d = refl
truthy-snoc (x ∷ xs) d = refl

show_digits-truthy : (k n : ℕ) → truthy (show_digits (suc k) n) ≡ true
unfolding show_digits
show_digits-truthy k n = elim (Bool-cases (ltb n 10)) [
  | inl e ↦ rw e refl
  | inr e ↦ rw e (truthy-snoc (show_digits k (n / 10)) (b'0' + n % 10))
]

unsigned-Digits : (s : Text) → Digits s → unsigned s ≡ some (leading_digits 0 s)
unfolding unsigned
unsigned-Digits [] d = absurd (cc (d.0))
unsigned-Digits (c ∷ s) d = simp (d.1.0) refl

not_space : (c : ℕ) → is_digit c ≡ true → is_space c ≡ false
not_space c h = ground arith

no_sign : (c : ℕ) → is_digit c ≡ true → ((c == b'-') ≡ false) × ((c == b'+') ≡ false)
no_sign c h = (ground arith, ground arith)

parse_ℤ-Digits : (s : Text) → Digits s → parse_ℤ s ≡ some (pos (leading_digits 0 s))
unfolding parse_ℤ signed
parse_ℤ-Digits [] d = absurd (cc (d.0))
parse_ℤ-Digits (c ∷ s) d =
    let plain : ((c == b'-') ≡ false) × ((c == b'+') ≡ false) = no_sign c d.1.0 in
    simp (not_space c d.1.0, plain.0, plain.1, unsigned-Digits (c ∷ s) d) refl

parse_ℤ-negative : (s : Text) → Digits s → parse_ℤ (b'-' ∷ s) ≡ some (negate (leading_digits 0 s))
unfolding parse_ℤ signed
parse_ℤ-negative s d = simp (unsigned-Digits s d) refl

-- An integer of at most 21 digits is read back from its text.
pub parse_ℤ-show_ℤ : (z : ℤ) → magnitude z < 10 ^ 21 → parse_ℤ (show_ℤ z) ≡ some z
unfolding show_ℤ
parse_ℤ-show_ℤ (pos n) h =
    parse_ℤ-Digits _ (show_digits-truthy 20 n, show_digits-All 21 n)
    ∙ ap (λ (k : ℕ). some (pos k)) (leading_digits-show_digits 21 n h)
parse_ℤ-show_ℤ (negsuc n) h =
    let more : n + 1 ≡ suc n = omega arith in
    parse_ℤ-negative _ (show_digits-truthy 20 (n + 1), show_digits-All 21 (n + 1))
    ∙ ap (λ (k : ℕ). some (negate k)) (leading_digits-show_digits 21 (n + 1) h ∙ more)
