-- ===== src/Telemetry/Bits.antt =====
-- `|` of two numbers whose bits do not overlap is their sum.
use Prim.Native.Nat.{bit_or, digits, bit_or-bitwise}
use chirpstack_simulator.Prelude.{
  ℕ, zero, suc, ◌+◌, ◌*◌, ◌/◌, ◌%◌, ◌^◌, ◌≤◌, ◌<◌, max, ◌≡◌, refl, arith, ap,
}
use native.Mathlib.Nat.{pow-suc}

-- The recursion that the operation stands for, on `fuel` binary digits of its first argument.
abbrev or_digits : ℕ → ℕ → ℕ → ℕ
or_digits fuel a b = digits (λ y. y) max fuel a b

-- Any fuel that covers the first argument gives the same number.
or_digits_enough :
    (more less a b : ℕ) → a ≤ less → less ≤ more → or_digits more a b ≡ or_digits less a b
or_digits_enough zero zero a b h k = refl
or_digits_enough zero (suc less) a b h k = absurd (omega arith)
or_digits_enough (suc more) zero zero b h k = refl
or_digits_enough (suc more) zero (suc a) b h k = absurd (omega arith)
or_digits_enough (suc more) (suc less) zero b h k = refl
or_digits_enough (suc more) (suc less) (suc a) b h k =
    rw (or_digits_enough more less (suc a / 2) (b / 2) (omega arith) (omega arith))

bit_or-halves : (a b : ℕ) → bit_or a b ≡ bit_or (a / 2) (b / 2) * 2 + max (a % 2) (b % 2)
bit_or-halves zero b = simp bit_or-bitwise (omega arith)
bit_or-halves (suc a) b =
    simp bit_or-bitwise (
      omega (arith, or_digits_enough a (suc a / 2) (suc a / 2) (b / 2) (omega arith) (omega arith)))

bit_or-zero : (k a : ℕ) → a ≤ k → bit_or a 0 ≡ a
bit_or-zero k zero h = refl
bit_or-zero zero (suc a) h = absurd (omega arith)
bit_or-zero (suc k) (suc a) h =
    omega (arith, bit_or-halves (suc a) 0, bit_or-zero k (suc a / 2) (omega arith))

or_double : (m low : ℕ) → bit_or m (low / 2) ≡ m + low / 2 → bit_or (m * 2) low ≡ m * 2 + low
or_double m low ih =
    let half : m * 2 / 2 ≡ m = omega arith in
    let halves = rw half at (bit_or-halves (m * 2) low) in omega (arith, halves, ih)

pub bit_or-disjoint :
    (k high low : ℕ) → low < 2 ^ k → bit_or (high * 2 ^ k) low ≡ high * 2 ^ k + low
bit_or-disjoint zero high low h =
    let none_left : low ≡ 0 = omega arith in
    rw none_left (omega (arith, bit_or-zero (high * 2 ^ 0) (high * 2 ^ 0) (omega arith)))
bit_or-disjoint (suc k) high low h =
    let e : high * 2 ^ suc k ≡ high * 2 ^ k * 2 =
      omega (arith, ap (λ (t : ℕ). high * t) (pow-suc 2 k)) in
    let fits : low / 2 < 2 ^ k = omega (arith, pow-suc 2 k) in
    rw e (or_double (high * 2 ^ k) low (bit_or-disjoint k high (low / 2) fits))

pub bit_or_byte : (high low : ℕ) → low < 256 → bit_or (high * 256) low ≡ high * 256 + low
bit_or_byte high low h = bit_or-disjoint 8 high low h
