-- ===== src/Telemetry/Hex.antt =====
-- The hexadecimal text of a payload, and the frames of the preview.
use chirpstack_simulator.Prelude.{
  ℕ, zero, suc, ◌+◌, ◌-◌, ◌*◌, ◌/◌, ◌%◌, ◌<◌, ◌≡◌, refl, arith, List, [], ◌∷◌, All, length, Text,
  true, ap, some, get_elem?, if◌then◌else◌, leb, map, ltb, Bool-cases, inl, ltb→lt, inr,
}
use chirpstack_simulator.Telemetry.{
  hex_char, to_hex, last_two, bytes_to_hex, is_hex, hex_digit, hex_to_bytes, Template, ScriptResult,
  preview_row, preview_from, simulate_telemetry, payload_of,
}

hex_char_round : (d : ℕ) → d < 16 → (hex_digit (hex_char d) ≡ d) × (is_hex (hex_char d) ≡ true)
unfolding hex_digit hex_char is_hex
hex_char_round d h = (ground arith, ground arith)

zero_digit : hex_char 0 ≡ b'0'
unfolding hex_char
zero_digit = refl

last_two_lem :
    (b : ℕ) → b < 256 → last_two (b'0' ∷ to_hex b) ≡ hex_char (b / 16) ∷ hex_char (b % 16) ∷ []
unfolding last_two to_hex
last_two_lem b h = elim (Bool-cases (ltb b 16)) [
  | inl e ↦
      let small = ltb→lt b 16 e in
      let high : b / 16 ≡ 0 = omega arith in
      let low : b % 16 ≡ b = omega arith in rw (e, high, low, zero_digit) refl
  | inr e ↦ rw e refl
]

-- A payload whose numbers are all below 256 is read back from the text that the preview shows for it.
pub hex_to_bytes-bytes_to_hex :
    (bs : List ℕ) → All (λ b. b < 256) bs → hex_to_bytes (bytes_to_hex bs) ≡ bs
unfolding hex_to_bytes bytes_to_hex
hex_to_bytes-bytes_to_hex [] h = refl
hex_to_bytes-bytes_to_hex (b ∷ bs) h =
    let same : b % 256 ≡ b = omega (arith, h.0) in
    let high = (hex_char_round (b / 16) (omega (arith, h.0))).0 in
    let low = (hex_char_round (b % 16) (omega arith)).0 in
    let value : b / 16 * 16 + b % 16 ≡ b = omega arith in
    rw (same, last_two_lem b (h.0), high, low, value)
      (ap (b ∷◌) (hex_to_bytes-bytes_to_hex bs (h.1)))

-- `toUpperCase` on a hexadecimal digit.
pub upper_hex : ℕ → ℕ
upper_hex c = if leb b'a' c then c - 32 else c

-- An even number of hexadecimal digits.
unfoldable pub EvenHex : Text → Type 0
EvenHex [] = Unit
EvenHex (c ∷ []) = ⊥
EvenHex (c ∷ d ∷ s) = (is_hex c ≡ true) × (is_hex d ≡ true) × EvenHex s

digit_round :
    (c : ℕ) → is_hex c ≡ true → (hex_char (hex_digit c) ≡ upper_hex c) × (hex_digit c < 16)
unfolding hex_char hex_digit is_hex upper_hex
digit_round c h = (ground arith, ground arith)

-- A text of hexadecimal digits, an even number of them, comes back from its bytes in upper case.
pub bytes_to_hex-hex_to_bytes :
    (s : Text) → EvenHex s → bytes_to_hex (hex_to_bytes s) ≡ map upper_hex s
unfolding hex_to_bytes bytes_to_hex EvenHex
bytes_to_hex-hex_to_bytes [] h = refl
bytes_to_hex-hex_to_bytes (c ∷ []) h = absurd h
bytes_to_hex-hex_to_bytes (c ∷ d ∷ s) h =
    let first = digit_round c (h.0) in
    let second = digit_round d (h.1) in
    let same : (hex_digit c * 16 + hex_digit d) % 256 ≡ hex_digit c * 16 + hex_digit d =
      omega (arith, first.1, second.1) in
    let small : hex_digit c * 16 + hex_digit d < 256 = omega (arith, first.1, second.1) in
    let high : (hex_digit c * 16 + hex_digit d) / 16 ≡ hex_digit c = omega (arith, second.1) in
    let low : (hex_digit c * 16 + hex_digit d) % 16 ≡ hex_digit d = omega (arith, second.1) in
    rw (same, last_two_lem (hex_digit c * 16 + hex_digit d) small, high, low, first.0, second.0)
      (ap (λ (t : Text). upper_hex c ∷ upper_hex d ∷ t) (bytes_to_hex-hex_to_bytes s (h.2)))

preview_from-get :
    (template : Template) (script : ℕ → ScriptResult) (i n k : ℕ)
    → k < n
    → get_elem? (preview_from template script i n) k
      ≡ some (preview_row template (i + k) (payload_of (script (i + k))))
unfolding preview_from
preview_from-get template script i zero k h = absurd (omega arith)
preview_from-get template script i (suc n) zero h = let e : i + 0 ≡ i = omega arith in rw e refl
preview_from-get template script i (suc n) (suc k) h =
    let e : i + suc k ≡ i + 1 + k = omega arith in
    rw e (preview_from-get template script (i + 1) n k (omega arith))

length-preview_from :
    (template : Template) (script : ℕ → ScriptResult) (i n : ℕ)
    → length (preview_from template script i n) ≡ n
unfolding preview_from
length-preview_from template script i zero = refl
length-preview_from template script i (suc n) =
    ap suc (length-preview_from template script (i + 1) n)

-- The preview has 24 rows, and row `k` shows what the script returns for the frame counter `k`,
-- whatever it returns for the other counters.
pub simulate_telemetry-get :
    (template : Template) (script : ℕ → ScriptResult) (k : ℕ)
    → k < 24
    → (length (simulate_telemetry template script) ≡ 24)
      × (get_elem? (simulate_telemetry template script) k
          ≡ some (preview_row template k (payload_of (script k))))
unfolding simulate_telemetry
simulate_telemetry-get template script k h =
    let e : 0 + k ≡ k = omega arith in
    (length-preview_from template script 0 24, rw e at (preview_from-get template script 0 24 k h))
