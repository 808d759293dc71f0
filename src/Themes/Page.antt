-- ===== src/Themes/Page.antt =====
-- internal/api/frontend/js/utils.js: applyGlobalTheme, which sets the colours of the page.
pub mod Colors
use chirpstack_simulator.Themes.{
  normalize_hex, ℕ, Text, ℤ, is_light_color, adjust_color_brightness, negate, hex_to_rgb,
}
use chirpstack_simulator.Themes.Presets.{Theme, falt_cosmic}
use chirpstack_simulator.Prelude.{
  ℕ, Text, List, get_elem?, none, Bool, [], some, suc, text_or, ◌∷◌, ◌+◌, zero, if◌then◌else◌,
  codes, ◌++◌,
}
use chirpstack_simulator.Prelude.Int.{ℤ, negsuc, pos}
use chirpstack_simulator.Prelude.Decimals.{negate}

-- The properties that it sets, by the names of the variables, and whether the body has `light-theme`.
pub record Page : Type 0 where
  pub bg : Text
  pub bg_deepest : Text
  pub bg_card : Text
  pub bg_field : Text
  pub bg_sidebar : Text
  pub bg_secondary_sidebar : Text
  pub text : Text
  pub text_dim : Text
  pub border : Text
  pub border_soft : Text
  pub accent : Text
  pub accent_hover : Text
  pub accent_soft : Text
  pub accent_fg : Text
  pub green : Text
  pub red : Text
  pub yellow : Text
  pub blue : Text
  pub ansi : List Text
  pub light_theme : Bool

-- `themeObj[i]`
abbrev pub key_at : Theme → ℕ → Text
key_at theme i = elim (get_elem? theme.ansi i) [ none ↦ [] | some color ↦ color ]

-- The first `n` indices after `from`, with the colour of each.
unfoldable pub ansi_from : Theme → ℕ → ℕ → List Text
ansi_from theme from zero = []
ansi_from theme from (suc n) =
    normalize_hex (text_or (key_at theme from) (key_at falt_cosmic from))
    ∷ ansi_from theme (from + 1) n

-- `themeObj[i] || themeObj[j] || fallback`
abbrev pub first_of : Theme → ℕ → ℕ → Text → Text
first_of theme i j fallback = text_or (key_at theme i) (text_or (key_at theme j) fallback)

unfoldable pub apply_global_theme : Theme → Page
apply_global_theme theme =
    let bg = normalize_hex theme.bg in
    let fg = normalize_hex theme.fg in
    let cu = normalize_hex theme.cu in
    let sb = normalize_hex theme.sb in
    let is_light = is_light_color bg in
    let by_mode : Text → ℤ → ℤ → Text = λ (color : Text) (light : ℤ) (dark : ℤ).
      adjust_color_brightness color (if is_light then light else dark) in
    record {
      bg = bg;
      bg_deepest = by_mode bg (negate 5) (negate 12);
      bg_card = if is_light then codes "#ffffff" else adjust_color_brightness bg (pos 8);
      bg_field = by_mode bg (negate 3) (pos 14);
      bg_sidebar = sb;
      bg_secondary_sidebar = by_mode sb (negate 5) (negate 8);
      text = fg;
      text_dim = by_mode fg (pos 30) (negate 30);
      border = by_mode bg (negate 15) (pos 18);
      border_soft = by_mode bg (negate 8) (pos 10);
      accent = cu;
      accent_hover = by_mode cu (negate 10) (pos 10);
      accent_soft = codes "rgba(" ++ (hex_to_rgb cu ++ codes ", 0.12)");
      accent_fg = if is_light_color cu then codes "#0f172a" else codes "#ffffff";
      green = normalize_hex (first_of theme 2 10 (codes "#22c55e"));
      red = normalize_hex (first_of theme 1 9 (codes "#ef4444"));
      yellow = normalize_hex (first_of theme 3 11 (codes "#eab308"));
      blue = normalize_hex (first_of theme 4 12 (codes "#3b82f6"));
      ansi = ansi_from theme 0 16;
      light_theme = is_light;
    }
