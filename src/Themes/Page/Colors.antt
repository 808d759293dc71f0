-- ===== src/Themes/Page/Colors.antt =====
-- What applyGlobalTheme sets for a theme of colours.
use chirpstack_simulator.Themes.{
  normalize_hex, adjust_color_brightness, Text, ℕ, ℤ, is_hex, is_light_color, without_mark, doubled,
}
use chirpstack_simulator.Themes.Channels.{
  IsColor, normalize_hex-text_of, adjust_color_brightness-channels, text_of, Digits,
}
use chirpstack_simulator.Themes.Presets.{Theme, falt_cosmic}
use chirpstack_simulator.Themes.Page.{Page, key_at, apply_global_theme, ansi_from, falt_cosmic}
use chirpstack_simulator.Prelude.{
  All, Text, ℕ, ◌≡◌, length, Bool, [], ◌∷◌, if◌then◌else◌, true, ◌⊎◌, false, ◌∙◌, ◌&&◌, text_eq_iff,
  text_or, refl, text_eq, inl, suc, get_elem?, none, ◌+◌, inr, codes, some, ap, zero, List,
  and_parts,
}
use chirpstack_simulator.Prelude.Int.{ℤ}
use chirpstack_simulator.Telemetry.{is_hex}

-- A key that is missing or empty, or a colour: six digits, or three, "#" before them or not.
abbrev pub OptionalColor : Text → Type 0
OptionalColor s = (s ≡ []) ⊎ IsColor (normalize_hex s)

-- The keys that the page needs are colours, and the others are colours where they are set.
pub record IsTheme (theme : Theme) : Type 0 where
  pub bg : IsColor (normalize_hex theme.bg)
  pub fg : IsColor (normalize_hex theme.fg)
  pub cu : IsColor (normalize_hex theme.cu)
  pub sb : IsColor (normalize_hex theme.sb)
  pub ansi : (i : ℕ) → OptionalColor (key_at theme i)

pub record AreColors (page : Page) : Type 0 where
  pub bg : IsColor page.bg
  pub bg_deepest : IsColor page.bg_deepest
  pub bg_card : IsColor page.bg_card
  pub bg_field : IsColor page.bg_field
  pub bg_sidebar : IsColor page.bg_sidebar
  pub bg_secondary_sidebar : IsColor page.bg_secondary_sidebar
  pub text : IsColor page.text
  pub text_dim : IsColor page.text_dim
  pub border : IsColor page.border
  pub border_soft : IsColor page.border_soft
  pub accent : IsColor page.accent
  pub accent_hover : IsColor page.accent_hover
  pub accent_fg : IsColor page.accent_fg
  pub green : IsColor page.green
  pub red : IsColor page.red
  pub yellow : IsColor page.yellow
  pub blue : IsColor page.blue
  pub ansi : All IsColor page.ansi
  pub count : length page.ansi ≡ 16

normalize_hex-IsColor : {s : Text} → IsColor s → normalize_hex s ≡ s
normalize_hex-IsColor v = rw v.spelled (normalize_hex-text_of v.digits v.hex)

bright : {s : Text} (percent : ℤ) → IsColor s → IsColor (adjust_color_brightness s percent)
bright {s} percent v =
    (adjust_color_brightness-channels s percent v.digits v.hex
      (normalize_hex-IsColor v ∙ v.spelled)).0

by_mode :
    {s : Text} (light : Bool) (p q : ℤ)
    → IsColor s
    → IsColor (adjust_color_brightness s (if light then p else q))
by_mode light p q v = bright (if light then p else q) v

either : {x y : Text} (t : Bool) → IsColor x → IsColor y → IsColor (if t then x else y)
either true p q = p
either false p q = q

-- A colour, tested.
unfoldable pub digits_of : Text → Digits
digits_of s = record {
  r1 = code_at 1;
  r2 = code_at 2;
  g1 = code_at 3;
  g2 = code_at 4;
  b1 = code_at 5;
  b2 = code_at 6;
}
  where
    code_at : ℕ → ℕ
    code_at i = elim (get_elem? s i) [ none ↦ 0 | some c ↦ c ]

unfoldable pub color_test : Text → Bool
unfolding digits_of
color_test s =
    let d = digits_of s in
    text_eq s (text_of d)
    && (is_hex d.r1
        && (is_hex d.r2 && (is_hex d.g1 && (is_hex d.g2 && (is_hex d.b1 && is_hex d.b2)))))

pub color_test-IsColor : (s : Text) → color_test s ≡ true → IsColor s
unfolding color_test
color_test-IsColor s h =
    let (e, k1) = and_parts _ _ h in
    let (r1, k2) = and_parts _ _ k1 in
    let (r2, k3) = and_parts _ _ k2 in
    let (g1, k4) = and_parts _ _ k3 in
    let (g2, k5) = and_parts _ _ k4 in
    let (b1, b2) = and_parts _ _ k5 in
    record {
      digits = digits_of s;
      spelled = (text_eq_iff s _).0 e;
      hex = record { r1 = r1; r2 = r2; g1 = g1; g2 = g2; b1 = b1; b2 = b2 };
    }

first :
    (s fallback : Text)
    → OptionalColor s
    → IsColor (normalize_hex fallback)
    → IsColor (normalize_hex (text_or s fallback))
first [] fallback o q = q
first (c ∷ s) fallback (inl e) q = cc
first (c ∷ s) fallback (inr p) q = p

unfoldable pub every_color : List Text → Bool
every_color [] = color_test (normalize_hex [])
every_color (s ∷ rest) = color_test (normalize_hex s) && every_color rest

pub every_color-at :
    (theme : Theme) (l : List Text) (i : ℕ)
    → every_color l ≡ true
    → color_test (normalize_hex (key_at (record theme { ansi = l }) i)) ≡ true
unfolding every_color
every_color-at theme [] i h = h
every_color-at theme (s ∷ rest) zero h = (and_parts _ _ h).0
every_color-at theme (s ∷ rest) (suc i) h = every_color-at theme rest i ((and_parts _ _ h).1)

cosmic_colors : every_color (falt_cosmic.ansi) ≡ true
unfolding every_color color_test digits_of text_of normalize_hex is_hex without_mark doubled
cosmic_colors = refl

-- Of the theme that fills the gaps, every key is a colour, and one that it does not have is black.
cosmic_keys : (i : ℕ) → color_test (normalize_hex (key_at falt_cosmic i)) ≡ true
cosmic_keys i = every_color-at falt_cosmic (falt_cosmic.ansi) i cosmic_colors

ansi_from-colors :
    (theme : Theme) (v : (i : ℕ) → OptionalColor (key_at theme i)) (from n : ℕ)
    → All IsColor (ansi_from theme from n) × (length (ansi_from theme from n) ≡ n)
unfolding ansi_from
ansi_from-colors theme v from zero = (tt, refl)
ansi_from-colors theme v from (suc n) =
    let (colors, count) = ansi_from-colors theme v (from + 1) n in
    (
      (
        first (key_at theme from) (key_at falt_cosmic from) (v from)
            (color_test-IsColor _ (cosmic_keys from)),
        colors,
      ),
      ap suc count,
    )

literal_colors :
    IsColor (codes "#ffffff")
    × IsColor (codes "#0f172a")
    × IsColor (normalize_hex (codes "#22c55e"))
    × IsColor (normalize_hex (codes "#ef4444"))
    × IsColor (normalize_hex (codes "#eab308"))
    × IsColor (normalize_hex (codes "#3b82f6"))
unfolding color_test digits_of text_of normalize_hex is_hex without_mark doubled
literal_colors = (
  color_test-IsColor _ refl,
  color_test-IsColor _ refl,
  color_test-IsColor _ refl,
  color_test-IsColor _ refl,
  color_test-IsColor _ refl,
  color_test-IsColor _ refl,
)

-- Where the background, the text, the cursor and the selection of a theme are colours, with six
-- hexadecimal digits or three, and its sixteen numbered keys are colours or are not set, each property
-- that applyGlobalTheme sets is "#" with six hexadecimal digits, `--accent-soft` apart, and the console
-- has its sixteen colours.
pub apply_global_theme-AreColors :
    (theme : Theme) → IsTheme theme → AreColors (apply_global_theme theme)
unfolding apply_global_theme
apply_global_theme-AreColors theme v =
    let light = is_light_color (normalize_hex theme.bg) in
    let (white, dark, green, red, yellow, blue) = literal_colors in
    let named = λ (i j : ℕ) (fallback : Text) (q : IsColor (normalize_hex fallback)).
      first (key_at theme i) (text_or (key_at theme j) fallback) (v.ansi i)
        (first (key_at theme j) fallback (v.ansi j) q) in
    let (colors, count) = ansi_from-colors theme v.ansi 0 16 in
    record {
      bg = v.bg;
      bg_deepest = by_mode light _ _ v.bg;
      bg_card = either light white (bright _ v.bg);
      bg_field = by_mode light _ _ v.bg;
      bg_sidebar = v.sb;
      bg_secondary_sidebar = by_mode light _ _ v.sb;
      text = v.fg;
      text_dim = by_mode light _ _ v.fg;
      border = by_mode light _ _ v.bg;
      border_soft = by_mode light _ _ v.bg;
      accent = v.cu;
      accent_hover = by_mode light _ _ v.cu;
      accent_fg = either (is_light_color (normalize_hex theme.cu)) dark white;
      green = named 2 10 _ green;
      red = named 1 9 _ red;
      yellow = named 3 11 _ yellow;
      blue = named 4 12 _ blue;
      ansi = colors;
      count = count;
    }
