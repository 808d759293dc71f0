-- ===== src/Themes.antt =====
-- internal/api/frontend/js/utils.js: the colours of a theme. A colour is the text that the theme holds,
-- and what `parseInt` makes of its digits may be `NaN`, which is `none`. The products with 0.2126,
-- 0.7152, 0.0722 and 2.55 are exact here; on channels from 0 to 255, and on the percentages that the
-- source passes, the floating-point results that the source compares and rounds are the same.
pub mod Channels
pub mod Presets
pub mod Page
pub mod Toggle
use chirpstack_simulator.Prelude.{
  ℕ, zero, suc, ◌+◌, ◌-◌, ◌*◌, ◌/◌, ◌%◌, Bool, true, false, ltb, leb, ◌==◌, ◌&&◌, ◌||◌,
  if◌then◌else◌, Option, none, some, List, [], ◌∷◌, ◌++◌, Text, codes, truthy, trim, trim_start,
  take, drop, length, replicate, min, starts_with,
}
use chirpstack_simulator.Prelude.Int.{ℤ, pos, negsuc, ◌+ℤ◌, ◌*ℤ◌, ltb_ℤ}
use chirpstack_simulator.Prelude.Decimals.{show_ℤ, negate}
use chirpstack_simulator.Telemetry.{is_hex, hex_digit}

-- `s.slice(from, to)` for `from` and `to` that are not negative.
unfoldable pub slice : ℕ → ℕ → Text → Text
slice from to s = take (to - from) (drop from s)

-- A text of three digits stands for six.
unfoldable pub doubled : Text → Text
doubled (a ∷ b ∷ c ∷ []) = a ∷ a ∷ b ∷ b ∷ c ∷ c ∷ []
doubled hex = hex

unfoldable pub without_mark : Text → Text
without_mark hex = if starts_with (codes "#") hex then drop 1 hex else hex

unfoldable pub normalize_hex : Text → Text
normalize_hex hex = if truthy hex then b'#' ∷ doubled (without_mark (trim hex)) else codes "#000000"

unfoldable pub hex_value : ℕ → Text → ℕ
hex_value acc [] = acc
hex_value acc (c ∷ s) =
    let rest = hex_value (acc * 16 + hex_digit c) s in if is_hex c then rest else acc

unfoldable pub unsigned_16 : Text → Option ℕ
unsigned_16 [] = none
unsigned_16 (c ∷ s) = if is_hex c then some (hex_value 0 (c ∷ s)) else none

unfoldable pub without_0x : Text → Text
without_0x s = if starts_with (codes "0x") s || starts_with (codes "0X") s then drop 2 s else s

-- `parseInt(s, 16)`: white space, a sign and `0x` may stand before the digits.
unfoldable pub signed_16 : Text → Option ℤ
signed_16 [] = none
signed_16 (c ∷ s) =
    if c == b'-'
    then elim (unsigned_16 (without_0x s)) [ none ↦ none | some n ↦ some (negate n) ]
    else (let digits = if c == b'+' then s else c ∷ s in
        elim (unsigned_16 (without_0x digits)) [ none ↦ none | some n ↦ some (pos n) ])

unfoldable pub parse_int_16 : Text → Option ℤ
parse_int_16 s = signed_16 (trim_start s)

pub record Rgb : Type 0 where
  pub r : Option ℤ
  pub g : Option ℤ
  pub b : Option ℤ

-- The three calls of `parseInt` that each function makes.
unfoldable pub channels : Text → Rgb
channels hex = record {
  r = parse_int_16 (slice 1 3 hex);
  g = parse_int_16 (slice 3 5 hex);
  b = parse_int_16 (slice 5 7 hex);
}

unfoldable pub decimal : Option ℤ → Text
decimal none = codes "NaN"
decimal (some v) = show_ℤ v

unfoldable pub hex_to_rgb : Text → Text
hex_to_rgb hex =
    let c = channels (normalize_hex hex) in
    decimal c.r ++ (codes "," ++ (decimal c.g ++ (codes "," ++ decimal c.b)))

-- `Math.round(2.55 * percent)`, which is the whole part of (51 * percent + 10) / 20, rounded down.
unfoldable pub floor_20 : ℤ → ℤ
floor_20 (pos n) = pos (n / 20)
floor_20 (negsuc n) = negsuc (n / 20)

-- The exact value of `Math.round(2.55 * percent)`, which that of the floats is for every percentage
-- that the page passes.
unfoldable pub amount : ℤ → ℤ
amount percent = floor_20 (pos 51 *ℤ percent +ℤ pos 10)

-- `Math.max(0, Math.min(255, v))`
unfoldable pub clamp : ℤ → ℕ
clamp (pos n) = min 255 n
clamp (negsuc n) = 0

unfoldable pub digit_16 : ℕ → ℕ
digit_16 d = if ltb d 10 then b'0' + d else b'a' + (d - 10)

-- `v.toString(16)` of a number below 256.
unfoldable pub to_string_16 : ℕ → Text
to_string_16 v = if ltb v 16 then digit_16 v ∷ [] else digit_16 (v / 16) ∷ digit_16 (v % 16) ∷ []

-- `padStart(2, '0')`
unfoldable pub pad_start_2 : Text → Text
pad_start_2 s = replicate (2 - length s) b'0' ++ s

unfoldable pub adjusted : ℤ → Option ℤ → Text
adjusted amt none = codes "NaN"
adjusted amt (some v) = pad_start_2 (to_string_16 (clamp (v +ℤ amt)))

unfoldable pub adjust_color_brightness : Text → ℤ → Text
adjust_color_brightness hex percent =
    let c = channels (normalize_hex hex) in
    let amt = amount percent in b'#' ∷ (adjusted amt c.r ++ (adjusted amt c.g ++ adjusted amt c.b))

-- `NaN` is not greater than 128.
unfoldable pub luma_above : Option ℤ → Option ℤ → Option ℤ → Bool
luma_above (some r) (some g) (some b) =
    ltb_ℤ (pos 1280000) (pos 2126 *ℤ r +ℤ pos 7152 *ℤ g +ℤ pos 722 *ℤ b)
luma_above none g b = false
luma_above r none b = false
luma_above r g none = false

unfoldable pub is_light_color : Text → Bool
is_light_color hex = let c = channels (normalize_hex hex) in luma_above c.r c.g c.b
