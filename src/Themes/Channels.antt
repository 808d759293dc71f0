-- ===== src/Themes/Channels.antt =====
-- The channels of a colour of six hexadecimal digits, before and after a change of its brightness.
use chirpstack_simulator.Telemetry.{is_hex, hex_digit}
use chirpstack_simulator.Themes.{
  normalize_hex, doubled, without_mark, hex_value, unsigned_16, without_0x, signed_16, parse_int_16,
  Rgb, channels, slice, amount, clamp, digit_16, to_string_16, pad_start_2, adjusted,
  adjust_color_brightness, Text, ℤ, ℕ,
}
use chirpstack_simulator.Prelude.{
  ℕ, Text, ◌≡◌, ◌∷◌, ◌*◌, ◌<◌, true, some, [], ◌/◌, ◌+◌, is_space, arith, ◌==◌, ◌%◌, false, refl,
  Bool-cases, ltb, inl, ltb→lt, inr, ap, ◌∙◌,
}
use chirpstack_simulator.Prelude.Int.{ℤ, pos, negsuc, ◌+ℤ◌}

-- "#" and six hexadecimal digits.
pub record Digits : Type 0 where
  pub r1 : ℕ
  pub r2 : ℕ
  pub g1 : ℕ
  pub g2 : ℕ
  pub b1 : ℕ
  pub b2 : ℕ

unfoldable pub text_of : Digits → Text
text_of d = b'#' ∷ d.r1 ∷ d.r2 ∷ d.g1 ∷ d.g2 ∷ d.b1 ∷ d.b2 ∷ []

pub record AreHex (d : Digits) : Type 0 where
  pub r1 : is_hex d.r1 ≡ true
  pub r2 : is_hex d.r2 ≡ true
  pub g1 : is_hex d.g1 ≡ true
  pub g2 : is_hex d.g2 ≡ true
  pub b1 : is_hex d.b1 ≡ true
  pub b2 : is_hex d.b2 ≡ true

pub record IsColor (s : Text) : Type 0 where
  pub digits : Digits
  pub spelled : s ≡ text_of digits
  pub hex : AreHex digits

-- The number that two digits are.
abbrev pub pair : ℕ → ℕ → ℕ
pair c d = hex_digit c * 16 + hex_digit d

no_space : (c : ℕ) → is_hex c ≡ true → is_space c ≡ false
unfolding is_hex
no_space c h = ground arith

no_prefix : (c d : ℕ) → is_hex d ≡ true → without_0x (c ∷ d ∷ []) ≡ c ∷ d ∷ []
unfolding without_0x is_hex
no_prefix c d k = ground arith

no_sign : (c : ℕ) → is_hex c ≡ true → ((c == b'-') ≡ false) × ((c == b'+') ≡ false)
unfolding is_hex
no_sign c h = (ground arith, ground arith)

two_values :
    (c d : ℕ) → is_hex c ≡ true → is_hex d ≡ true → unsigned_16 (c ∷ d ∷ []) ≡ some (pair c d)
unfolding unsigned_16 hex_value
two_values c d h k = rw (h, k) (ap some (omega arith))

parse_pair :
    (c d : ℕ)
    → is_hex c ≡ true
    → is_hex d ≡ true
    → parse_int_16 (c ∷ d ∷ []) ≡ some (pos (pair c d))
unfolding parse_int_16 signed_16
parse_pair c d h k =
    let (minus, plus) = no_sign c h in
    rw (no_space c h, minus, plus, no_prefix c d k, two_values c d h k) refl

pub normalize_hex-text_of : (d : Digits) → AreHex d → normalize_hex (text_of d) ≡ text_of d
unfolding normalize_hex text_of without_mark doubled
normalize_hex-text_of d h = rw (no_space d.b2 h.b2) refl

-- The channels of a colour, as numbers.
abbrev pub rgb : ℕ → ℕ → ℕ → Rgb
rgb r g b = record { r = some (pos r); g = some (pos g); b = some (pos b) }

pub channels-text_of :
    (d : Digits)
    → AreHex d
    → channels (text_of d) ≡ rgb (pair d.r1 d.r2) (pair d.g1 d.g2) (pair d.b1 d.b2)
unfolding channels text_of slice
channels-text_of d h = λ i. record {
  r = parse_pair d.r1 d.r2 h.r1 h.r2 i;
  g = parse_pair d.g1 d.g2 h.g1 h.g2 i;
  b = parse_pair d.b1 d.b2 h.b1 h.b2 i;
}

hex_char_round : (n : ℕ) → n < 16 → (hex_digit (digit_16 n) ≡ n) × (is_hex (digit_16 n) ≡ true)
unfolding hex_digit digit_16 is_hex
hex_char_round n h = (ground arith, ground arith)

two_digits :
    (v : ℕ) → v < 256 → pad_start_2 (to_string_16 v) ≡ digit_16 (v / 16) ∷ digit_16 (v % 16) ∷ []
unfolding pad_start_2 to_string_16
two_digits v h = elim (Bool-cases (ltb v 16)) [
  | inl e ↦
      let small = ltb→lt v 16 e in
      let high : v / 16 ≡ 0 = omega arith in
      let low : v % 16 ≡ v = omega arith in rw (e, high, low) (unfold digit_16 in refl)
  | inr e ↦ rw e refl
]

clamp_bounds : (v : ℤ) → clamp v < 256
unfolding clamp
clamp_bounds (pos n) = omega arith
clamp_bounds (negsuc n) = omega arith

-- The two digits of a channel, after a change of the brightness.
round_trip :
    (amt : ℤ) (n : ℕ)
    → (c d : ℕ) × (adjusted amt (some (pos n)) ≡ c ∷ d ∷ [])
      × (is_hex c ≡ true)
      × (is_hex d ≡ true)
      × (pair c d ≡ clamp (pos n +ℤ amt))
unfolding adjusted
round_trip amt n =
    let v = clamp (pos n +ℤ amt) in
    let small = clamp_bounds (pos n +ℤ amt) in
    let (high, high_hex) = hex_char_round (v / 16) (omega arith) in
    let (low, low_hex) = hex_char_round (v % 16) (omega arith) in
    (
      digit_16 (v / 16),
      digit_16 (v % 16),
      two_digits v small,
      high_hex,
      low_hex,
      rw (high, low) (omega arith),
    )

-- A change of the brightness of a colour of six hexadecimal digits, the "#" before them or the form
-- with three digits included, gives "#" and six hexadecimal digits, whose channels are the old ones
-- moved by the amount and brought back into 0 to 255.
pub adjust_color_brightness-channels :
    (hex : Text) (percent : ℤ) (d : Digits)
    → AreHex d
    → normalize_hex hex ≡ text_of d
    → let moved : ℕ → ℕ = λ v. clamp (pos v +ℤ amount percent) in
      IsColor (adjust_color_brightness hex percent)
      × (channels (normalize_hex (adjust_color_brightness hex percent))
          ≡ rgb (moved (pair d.r1 d.r2)) (moved (pair d.g1 d.g2)) (moved (pair d.b1 d.b2)))
unfolding adjust_color_brightness text_of
adjust_color_brightness-channels hex percent d h e =
    let amt = amount percent in
    let (r1, r2, er, hr1, hr2, vr) = round_trip amt (pair d.r1 d.r2) in
    let (g1, g2, eg, hg1, hg2, vg) = round_trip amt (pair d.g1 d.g2) in
    let (b1, b2, eb, hb1, hb2, vb) = round_trip amt (pair d.b1 d.b2) in
    let read : channels (normalize_hex hex) ≡ _ = ap channels e ∙ channels-text_of d h in
    let d' : Digits = record { r1 = r1; r2 = r2; g1 = g1; g2 = g2; b1 = b1; b2 = b2 } in
    let h' : AreHex d' = record { r1 = hr1; r2 = hr2; g1 = hg1; g2 = hg2; b1 = hb1; b2 = hb2 } in
    let spelled : adjust_color_brightness hex percent ≡ text_of d' = rw (read, er, eg, eb) refl in
    (
      record { digits = d'; spelled = spelled; hex = h' },
      ap (λ (s : Text). channels (normalize_hex s)) spelled
          ∙ ap channels (normalize_hex-text_of d' h')
          ∙ channels-text_of d' h'
          ∙ (λ i. rgb (vr i) (vg i) (vb i)),
    )
