-- ===== src/Telemetry/RoundTrip.antt =====
-- The preview decodes what the script templates encode.
use chirpstack_simulator.Prelude.{ℕ, ◌+◌, ◌-◌, ◌*◌, ◌/◌, ◌%◌, ◌^◌, ◌<◌, ◌≡◌, arith, ap}
use chirpstack_simulator.Prelude.Int.{ℤ, pos, negsuc, ◌-ℤ◌, ◌≤ℤ◌}
use chirpstack_simulator.Telemetry.{
  shl, join16, join32, signed16, decode, celsius_hundredths, litres, temperature, meter,
  encode_temperature, encode_meter,
}
use chirpstack_simulator.Telemetry.Bits.{bit_or_byte, bit_or-disjoint}

-- Of two bytes, the shift and `|` make the number with these two digits in base 256.
pub join16_lem : (b0 b1 : ℕ) → b0 < 256 → b1 < 256 → join16 b0 b1 ≡ b0 * 256 + b1
unfolding join16
join16_lem b0 b1 h k =
    let e0 : shl b0 8 ≡ b0 * 256 = omega arith in
    let e1 : b1 % 2 ^ 32 ≡ b1 = omega arith in rw (e0, e1) (bit_or_byte b0 b1 k)

pub join32_lem :
    (b0 b1 b2 b3 : ℕ)
    → b0 < 256
    → b1 < 256
    → b2 < 256
    → b3 < 256
    → join32 b0 b1 b2 b3 ≡ ((b0 * 256 + b1) * 256 + b2) * 256 + b3
unfolding join32
join32_lem b0 b1 b2 b3 h0 h1 h2 h3 =
    let e0 : shl b0 24 ≡ b0 * 2 ^ 24 = omega arith in
    let e1 : shl b1 16 ≡ b1 * 2 ^ 16 = omega arith in
    let e2 : shl b2 8 ≡ b2 * 256 = omega arith in
    let e3 : b3 % 2 ^ 32 ≡ b3 = omega arith in
    let d1 = bit_or-disjoint 24 b0 (b1 * 2 ^ 16) (omega arith) in
    let f1 : b0 * 2 ^ 24 + b1 * 2 ^ 16 ≡ (b0 * 256 + b1) * 2 ^ 16 = omega arith in
    let d2 = bit_or-disjoint 16 (b0 * 256 + b1) (b2 * 256) (omega arith) in
    let f2 : (b0 * 256 + b1) * 2 ^ 16 + b2 * 256 ≡ ((b0 * 256 + b1) * 256 + b2) * 256 =
      omega arith in
    rw (e0, e1, e2, e3, d1, f1, d2, f2) (bit_or_byte ((b0 * 256 + b1) * 256 + b2) b3 h3)

signed16_low : (w : ℕ) → w < 2 ^ 15 → signed16 w ≡ pos w
unfolding signed16
signed16_low w h = ground arith

signed16_high : (w n : ℕ) → w + n ≡ 65535 → n < 2 ^ 15 → signed16 w ≡ negsuc n
unfolding signed16 ◌-ℤ◌
signed16_high w n h k = ground arith

negative : (n : ℕ) → n < 2 ^ 15 → pos (0xFFFF + 1) -ℤ pos (n + 1) ≡ pos (65535 - n)
unfolding ◌-ℤ◌
negative n h = ground arith

-- Every temperature from -327.68 to 327.67 degrees, in hundredths, is read back from the two bytes of
-- the template exactly.
pub decode-encode_temperature :
    (t : ℤ)
    → negsuc 32767 ≤ℤ t
    → t ≤ℤ pos 32767
    → decode temperature (encode_temperature t) ≡ celsius_hundredths t
unfolding decode encode_temperature
decode-encode_temperature (pos n) low high =
    let w = n % 2 ^ 32 in
    let joined : join16 (w / 2 ^ 8 % 256) (w % 256) ≡ n =
      omega (arith, join16_lem (w / 2 ^ 8 % 256) (w % 256) (omega arith) (omega arith)) in
    rw joined (ap celsius_hundredths (signed16_low n (omega arith)))
decode-encode_temperature (negsuc n) low high =
    let shifted : pos (0xFFFF + 1) -ℤ pos (n + 1) ≡ pos (65535 - n) = negative n (omega arith) in
    let w = (65535 - n) % 2 ^ 32 in
    let joined : join16 (w / 2 ^ 8 % 256) (w % 256) ≡ 65535 - n =
      omega (arith, join16_lem (w / 2 ^ 8 % 256) (w % 256) (omega arith) (omega arith)) in
    rw (shifted, joined)
      (ap celsius_hundredths (signed16_high (65535 - n) n (omega arith) (omega arith)))

-- Every meter reading below 2^32 is read back from the four bytes of the template exactly.
pub decode-encode_meter : (n : ℕ) → n < 2 ^ 32 → decode meter (encode_meter n) ≡ litres (pos n)
unfolding decode encode_meter ◌-ℤ◌
decode-encode_meter n h =
    let w = n % 2 ^ 32 in
    let joined : join32 (w / 2 ^ 24 % 256) (w / 2 ^ 16 % 256) (w / 2 ^ 8 % 256) (w % 256) ≡ n =
      omega (
        arith,
        join32_lem (w / 2 ^ 24 % 256) (w / 2 ^ 16 % 256) (w / 2 ^ 8 % 256) (w % 256) (omega arith)
            (omega arith) (omega arith) (omega arith),
      ) in
    rw joined (ground arith)
