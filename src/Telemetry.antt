-- ===== src/Telemetry.antt =====
-- internal/api/frontend/js/tabs/dynamic-telemetry.js: the preview of a payload script. The script
-- itself is run by the engine (`new Function`), so its result for each frame counter is an argument.
-- The encoders are the last lines of the script templates in that file, from the rounded value on.
pub mod Bits
pub mod RoundTrip
pub mod Codec
pub mod Hex
use Prim.Native.Nat.{bit_or}
use chirpstack_simulator.Prelude.{
  ℕ, zero, suc, ◌+◌, ◌-◌, ◌*◌, ◌/◌, ◌%◌, ◌^◌, Bool, true, false, ◌&&◌, ◌||◌, Option, none, some,
  List, [], ◌∷◌, ◌++◌, map, length, drop, filter_by, ltb, leb, ◌==◌, if◌then◌else◌, Text, codes,
  truthy, inl, ◌⊎◌, inr,
}
use chirpstack_simulator.Prelude.Int.{ℤ, pos, negsuc, ◌-ℤ◌}

-- Numbers under the bit operators of JavaScript: a pattern of 32 bits, and the signed number that it
-- stands for.
abbrev pub pattern32 : ℤ → ℕ
pattern32 (pos n) = n % 2 ^ 32
pattern32 (negsuc n) = 2 ^ 32 - 1 - n % 2 ^ 32

abbrev pub signed32 : ℕ → ℤ
signed32 w = if ltb w (2 ^ 31) then pos w else negsuc (2 ^ 32 - w - 1)

abbrev pub shl : ℕ → ℕ → ℕ
shl x k = (x * 2 ^ k) % 2 ^ 32

-- Bit 15 of a pattern: `val & 0x8000` is not 0.
abbrev pub has_sign16 : ℕ → Bool
has_sign16 w = w / 2 ^ 15 % 2 == 1

-- `(b0 << 8) | b1`, and `(b0 << 24) | (b1 << 16) | (b2 << 8) | b3`.
unfoldable pub join16 : ℕ → ℕ → ℕ
join16 b0 b1 = bit_or (shl b0 8) (b1 % 2 ^ 32)

unfoldable pub join32 : ℕ → ℕ → ℕ → ℕ → ℕ
join32 b0 b1 b2 b3 = bit_or (bit_or (bit_or (shl b0 24) (shl b1 16)) (shl b2 8)) (b3 % 2 ^ 32)

-- `if (val & 0x8000) val = val - 0x10000`
unfoldable pub signed16 : ℕ → ℤ
signed16 w = if has_sign16 w then signed32 w -ℤ pos 0x10000 else signed32 w

pub data Template : Type 0 where
  custom temperature humidity meter battery : Template

-- What the preview shows for a payload: nothing, a number with its unit, or the bytes. A temperature
-- is counted in hundredths of a degree.
pub data Decoded : Type 0 where
  missing : Decoded
  celsius_hundredths : ℤ → Decoded
  relative_humidity : ℕ → Decoded
  litres : ℤ → Decoded
  percent : ℕ → Decoded
  plain : ℤ → Decoded
  raw : List ℕ → Decoded

unfoldable pub decode_temperature : List ℕ → Decoded
decode_temperature (b0 ∷ b1 ∷ rest) = celsius_hundredths (signed16 (join16 b0 b1))
decode_temperature short = missing

unfoldable pub decode_humidity : List ℕ → Decoded
decode_humidity (b0 ∷ rest) = relative_humidity b0
decode_humidity [] = missing

-- `if (val < 0) val = 0xFFFFFFFF + val + 1` takes the signed number back to its pattern.
unfoldable pub decode_meter : List ℕ → Decoded
decode_meter (b0 ∷ b1 ∷ b2 ∷ b3 ∷ rest) = litres (elim (signed32 (join32 b0 b1 b2 b3)) [
  | pos n ↦ pos n
  | negsuc n ↦ pos (0xFFFFFFFF + 1) -ℤ pos (n + 1)
])
decode_meter short = missing

unfoldable pub decode_battery : List ℕ → Decoded
decode_battery (b0 ∷ rest) = percent b0
decode_battery [] = missing

unfoldable pub decode_custom : List ℕ → Decoded
decode_custom (b0 ∷ []) = plain (pos b0)
decode_custom (b0 ∷ b1 ∷ []) = plain (signed16 (join16 b0 b1))
decode_custom (b0 ∷ b1 ∷ b2 ∷ b3 ∷ []) = plain (signed32 (join32 b0 b1 b2 b3))
decode_custom bytes = raw bytes

unfoldable pub decode : Template → List ℕ → Decoded
unfolding decode_temperature decode_humidity decode_meter decode_battery decode_custom
decode temperature bytes = decode_temperature bytes
decode humidity bytes = decode_humidity bytes
decode meter bytes = decode_meter bytes
decode battery bytes = decode_battery bytes
decode custom bytes = decode_custom bytes

-- The end of the temperature template: two's complement in 16 bits, high byte first.
pub encode_temperature : ℤ → List ℕ
encode_temperature temp_int =
    let w =
      pattern32 (elim temp_int [ pos n ↦ pos n | negsuc n ↦ pos (0xFFFF + 1) -ℤ pos (n + 1) ]) in
    (w / 2 ^ 8 % 256) ∷ (w % 256) ∷ []

-- The end of the meter template: 32 bits, high byte first.
pub encode_meter : ℕ → List ℕ
encode_meter total =
    let w = pattern32 (pos total) in
    (w / 2 ^ 24 % 256) ∷ (w / 2 ^ 16 % 256) ∷ (w / 2 ^ 8 % 256) ∷ (w % 256) ∷ []

-- `byte.toString(16)` of a number below 256, and the upper-case letters that the join ends with.
unfoldable pub hex_char : ℕ → ℕ
hex_char d = if ltb d 10 then b'0' + d else b'A' + (d - 10)

unfoldable pub to_hex : ℕ → Text
unfolding hex_char
to_hex v = if ltb v 16 then hex_char v ∷ [] else hex_char (v / 16) ∷ hex_char (v % 16) ∷ []

-- `('0' + …).slice(-2)`
unfoldable pub last_two : Text → Text
last_two s = drop (length s - 2) s

unfoldable pub bytes_to_hex : List ℕ → Text
bytes_to_hex [] = []
bytes_to_hex (b ∷ bytes) = last_two (b'0' ∷ to_hex (b % 256)) ++ bytes_to_hex bytes

unfoldable pub is_hex : ℕ → Bool
is_hex c = (leb b'0' c && leb c b'9') || (leb b'a' c && leb c b'f') || (leb b'A' c && leb c b'F')

-- The value of a hexadecimal digit, of either case.
unfoldable pub hex_digit : ℕ → ℕ
hex_digit c = if leb b'a' c then c - b'a' + 10 else if leb b'A' c then c - b'A' + 10 else c - b'0'

-- `parseInt(pair, 16)` of one or two digits, two digits at a time. The only caller has removed all
-- that is not a hexadecimal digit.
pub hex_to_bytes : Text → List ℕ
hex_to_bytes [] = []
hex_to_bytes (c ∷ []) = hex_digit c ∷ []
hex_to_bytes (c ∷ d ∷ rest) = (hex_digit c * 16 + hex_digit d) ∷ hex_to_bytes rest

-- What a script may return: an object whose `error` is not empty (or the text of an exception), an array
-- with `parseInt` of its entries, where `none` is `NaN`, a text, or anything else. The numbers of an
-- array are taken to be at least 0, as those of bytes are.
pub data ScriptResult : Type 0 where
  failure : Text → ScriptResult
  array : List (Option ℕ) → ScriptResult
  text : Text → ScriptResult
  other : ScriptResult

-- `v || 0`
unfoldable pub number_or_zero : Option ℕ → ℕ
number_or_zero none = 0
number_or_zero (some n) = n

pub data Payload : Type 0 where
  bytes : List ℕ → Payload
  error : Text → Payload

unfoldable pub payload_of : ScriptResult → Payload
payload_of (failure message) = error message
payload_of (array values) = bytes (map number_or_zero values)
payload_of (text s) = bytes (hex_to_bytes (filter_by is_hex s))
payload_of other = error (codes "Return type is not array or string")

-- A row of the preview. An empty message counts as no error.
pub record PreviewRow : Type 0 where
  pub f_cnt : ℕ
  pub hex : Text
  pub decoded : Decoded ⊎ Text

unfoldable pub preview_row : Template → ℕ → Payload → PreviewRow
preview_row template f_cnt (bytes bs) = record {
  f_cnt = f_cnt;
  hex = bytes_to_hex bs;
  decoded = inl (decode template bs);
}
preview_row template f_cnt (error message) =
    if truthy message
    then record { f_cnt = f_cnt; hex = codes "ERROR"; decoded = inr message }
    else record { f_cnt = f_cnt; hex = []; decoded = inl (decode template []) }

-- The loop over the frame counters, for a script that is not empty, `count` of them from `f_cnt` on.
unfoldable pub preview_from : Template → (ℕ → ScriptResult) → ℕ → ℕ → List PreviewRow
preview_from template script f_cnt zero = []
preview_from template script f_cnt (suc count) =
    preview_row template f_cnt (payload_of (script f_cnt))
    ∷ preview_from template script (f_cnt + 1) count

unfoldable pub simulate_telemetry : Template → (ℕ → ScriptResult) → List PreviewRow
simulate_telemetry template script = preview_from template script 0 24
