-- ===== src/Tests/Looks.antt =====
-- The theorems on colours and themes at concrete inputs.
use chirpstack_simulator.Prelude.Int.{pos, ◌+ℤ◌, ◌*ℤ◌}
use chirpstack_simulator.Themes.{
  normalize_hex, channels, clamp, amount, adjust_color_brightness, is_light_color, without_mark,
  doubled, slice, parse_int_16, signed_16, unsigned_16, without_0x, hex_value, floor_20, adjusted,
  pad_start_2, to_string_16, digit_16,
}
use chirpstack_simulator.Themes.Channels.{
  Digits, AreHex, IsColor, rgb, adjust_color_brightness-channels, text_of,
}
use chirpstack_simulator.Themes.Presets.{monokai}
use chirpstack_simulator.Themes.Toggle.{Look, load_look, toggle_theme, edit_color, bg}
use chirpstack_simulator.Themes.Toggle.Flips.{
  Reached, starts, then_event, edits, empty_storage, toggle_theme-flips,
}
use chirpstack_simulator.Telemetry.{is_hex, hex_digit}
use chirpstack_simulator.Prelude.{codes, ◌≡◌, refl, not, inr}
use chirpstack_simulator.Themes.Page.Colors.{
  every_color, AreColors, color_test, digits_of, IsTheme, apply_global_theme-AreColors,
  color_test-IsColor, every_color-at,
}
use chirpstack_simulator.Themes.Page.{apply_global_theme}

abbrev pub short : Digits
short = record { r1 = b'a'; r2 = b'a'; g1 = b'0'; g2 = b'0'; b1 = b'F'; b2 = b'F' }

short-AreHex : AreHex short
unfolding is_hex
short-AreHex = record { r1 = refl; r2 = refl; g1 = refl; g2 = refl; b1 = refl; b2 = refl }

adjust_color_brightness-channels_example :
    IsColor (adjust_color_brightness (codes " #a0F") (pos 30))
    × (channels (normalize_hex (adjust_color_brightness (codes " #a0F") (pos 30)))
        ≡ rgb
            (clamp (pos 170 +ℤ amount (pos 30)))
            (clamp (pos 0 +ℤ amount (pos 30)))
            (clamp (pos 255 +ℤ amount (pos 30))))
unfolding normalize_hex without_mark doubled text_of hex_digit
adjust_color_brightness-channels_example =
    adjust_color_brightness-channels (codes " #a0F") (pos 30) short short-AreHex refl

-- Lighter by 77, up to 255.
lighter : adjust_color_brightness (codes " #a0F") (pos 30) ≡ codes "#f74dff"
unfolding adjust_color_brightness normalize_hex without_mark doubled channels slice parse_int_16
    signed_16 unsigned_16 without_0x hex_value hex_digit is_hex amount floor_20 ◌*ℤ◌ ◌+ℤ◌ clamp
    adjusted pad_start_2 to_string_16 digit_16
lighter = refl

abbrev pub first_look : Look
first_look = load_look empty_storage

typed : Reached (edit_color bg (codes "#102030") first_look)
typed = then_event starts (edits bg (codes "#102030"))

toggle_theme-flips_example :
    is_light_color (toggle_theme (edit_color bg (codes "#102030") first_look)).active_theme.bg
    ≡ not (is_light_color (edit_color bg (codes "#102030") first_look).active_theme.bg)
toggle_theme-flips_example = toggle_theme-flips typed

monokai-IsTheme : IsTheme monokai
unfolding every_color color_test digits_of text_of normalize_hex is_hex without_mark doubled
monokai-IsTheme = record {
  bg = color_test-IsColor _ refl;
  fg = color_test-IsColor _ refl;
  cu = color_test-IsColor _ refl;
  sb = color_test-IsColor _ refl;
  ansi = λ i. inr (color_test-IsColor _ (every_color-at monokai (monokai.ansi) i refl));
}

apply_global_theme-AreColors_example : AreColors (apply_global_theme monokai)
apply_global_theme-AreColors_example = apply_global_theme-AreColors monokai monokai-IsTheme
