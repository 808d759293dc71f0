-- ===== src/Dashboard/Hash.antt =====
-- internal/api/frontend/js/tabs/dashboard.js: getDeterministicHash, by which a name is given its place
-- on the map.
use chirpstack_simulator.Prelude.{
  ℕ, Text, [], ◌∷◌, ◌+◌, ◌-◌, ◌*◌, ◌%◌, ◌^◌, ◌≡◌, ◌≤◌, arith, ◌<◌, ◌∙◌, All, ◌⊎◌, length, inl, refl,
  inr,
}
use chirpstack_simulator.Prelude.Int.{
  ℤ, pos, negsuc, ◌+ℤ◌, ◌-ℤ◌, pos_part, neg_part, +ℤ_parts, -ℤ_parts,
}
use chirpstack_simulator.Telemetry.{pattern32, signed32, shl}

-- One round of the loop. `<<` works on 32 bits with a sign; the sum and the difference do not wrap, and
-- JavaScript's numbers are exact below 2^53.
unfoldable pub hash_round : ℤ → ℕ → ℤ
hash_round hash c = pos c +ℤ (signed32 (shl (pattern32 hash) 5) -ℤ hash)

unfoldable pub hash_from : ℤ → Text → ℤ
hash_from hash [] = hash
hash_from hash (c ∷ s) = hash_from (hash_round hash c) s

unfoldable pub get_deterministic_hash : Text → ℕ
get_deterministic_hash s = let hash = hash_from (pos 0) s in pos_part hash + neg_part hash

-- The codes of a text as the digits of a number in base 31.
abbrev pub base_31 : ℕ → Text → ℕ
base_31 n [] = n
base_31 n (c ∷ s) = base_31 (n * 31 + c) s

abbrev magnitude : ℤ → ℕ
magnitude a = pos_part a + neg_part a

pattern32_parts : (a : ℤ) → pattern32 a ≡ (pos_part a + (2 ^ 32 - neg_part a % 2 ^ 32)) % 2 ^ 32
pattern32_parts (pos n) = omega arith
pattern32_parts (negsuc n) = omega arith

signed32_parts :
    (w : ℕ)
    → w < 2 ^ 32
    → (pos_part (signed32 w) + (2 ^ 32 - neg_part (signed32 w) % 2 ^ 32)) % 2 ^ 32 ≡ w
signed32_parts w h = ground arith

signed32-magnitude : (w : ℕ) → w < 2 ^ 32 → magnitude (signed32 w) ≤ 2 ^ 31
signed32-magnitude w h = ground arith

-- The same as `pattern32`, for `omega`.
abbrev pattern_of : ℕ → ℕ → ℕ
pattern_of p n = (p + (2 ^ 32 - n % 2 ^ 32)) % 2 ^ 32

difference_pattern :
    (c p pa na ps ns pt nt pu nu : ℕ)
    → pattern_of pa na ≡ p % 2 ^ 32
    → pattern_of ps ns ≡ (p % 2 ^ 32 * 32) % 2 ^ 32
    → pt + ns + pa ≡ nt + ps + na
    → pu + nt ≡ nu + c + pt
    → pattern_of pu nu ≡ (p * 31 + c) % 2 ^ 32
difference_pattern c p pa na ps ns pt nt pu nu h s t u = omega arith

hash_round-pattern32 :
    (hash : ℤ) (c p : ℕ)
    → pattern32 hash ≡ p % 2 ^ 32
    → pattern32 (hash_round hash c) ≡ (p * 31 + c) % 2 ^ 32
unfolding hash_round
hash_round-pattern32 hash c p h =
    let w = shl (pattern32 hash) 5 in
    let s = signed32 w in
    let t = s -ℤ hash in
    let u = pos c +ℤ t in
    pattern32_parts u
    ∙ difference_pattern c p (pos_part hash) (neg_part hash) (pos_part s) (neg_part s) (pos_part t)
        (neg_part t) (pos_part u) (neg_part u) (omega (arith, pattern32_parts hash, h))
        (omega (arith, signed32_parts w (omega arith), h)) (omega (arith, -ℤ_parts s hash))
        (omega (arith, +ℤ_parts (pos c) t))

sum_magnitude :
    (c : ℕ) (hash s : ℤ)
    → magnitude s ≤ 2 ^ 31
    → magnitude (pos c +ℤ (s -ℤ hash)) ≤ c + 2 ^ 31 + magnitude hash
unfolding ◌+ℤ◌ ◌-ℤ◌
sum_magnitude c (pos a) (pos b) h = ground arith
sum_magnitude c (pos a) (negsuc b) h = ground arith
sum_magnitude c (negsuc a) (pos b) h = ground arith
sum_magnitude c (negsuc a) (negsuc b) h = ground arith

up_to_sign :
    (hash : ℤ) (p : ℕ)
    → pattern32 hash ≡ p % 2 ^ 32
    → (magnitude hash % 2 ^ 32 ≡ p % 2 ^ 32) ⊎ ((magnitude hash + p) % 2 ^ 32 ≡ 0)
up_to_sign (pos n) p h = inl (omega arith)
up_to_sign (negsuc n) p h = inr (omega arith)

hash_round-magnitude :
    (hash : ℤ) (c : ℕ) → magnitude (hash_round hash c) ≤ c + 2 ^ 31 + magnitude hash
unfolding hash_round
hash_round-magnitude hash c =
    let w = shl (pattern32 hash) 5 in
    sum_magnitude c hash (signed32 w) (signed32-magnitude w (omega arith))

hash_from-pattern32 :
    (s : Text) (hash : ℤ) (p : ℕ)
    → pattern32 hash ≡ p % 2 ^ 32
    → pattern32 (hash_from hash s) ≡ base_31 p s % 2 ^ 32
unfolding hash_from
hash_from-pattern32 [] hash p h = h
hash_from-pattern32 (c ∷ s) hash p h =
    hash_from-pattern32 s (hash_round hash c) (p * 31 + c) (hash_round-pattern32 hash c p h)

hash_from-magnitude :
    (s : Text) (hash : ℤ)
    → All (λ c. c < 2 ^ 16) s
    → magnitude (hash_from hash s) ≤ magnitude hash + length s * (2 ^ 31 + 2 ^ 16)
unfolding hash_from
hash_from-magnitude [] hash a = omega arith
hash_from-magnitude (c ∷ s) hash a =
    omega (arith, hash_from-magnitude s (hash_round hash c) a.1, hash_round-magnitude hash c, a.0)

-- The hash of a text of codes below 2^16 is, up to its sign, the number that the codes write in
-- base 31, on 32 bits; and it is no greater than 2^31 + 2^16 for each code.
pub get_deterministic_hash_lem :
    (s : Text)
    → All (λ c. c < 2 ^ 16) s
    → ((get_deterministic_hash s % 2 ^ 32 ≡ base_31 0 s % 2 ^ 32)
        ⊎ ((get_deterministic_hash s + base_31 0 s) % 2 ^ 32 ≡ 0))
      × (get_deterministic_hash s ≤ length s * (2 ^ 31 + 2 ^ 16))
unfolding get_deterministic_hash
get_deterministic_hash_lem s a =
    let hash = hash_from (pos 0) s in
    let bound = hash_from-magnitude s (pos 0) a in
    (up_to_sign hash (base_31 0 s) (hash_from-pattern32 s (pos 0) 0 refl), omega (arith, bound))
