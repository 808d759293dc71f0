-- ===== src/Themes/Toggle/Kept.antt =====
-- What the storage keeps of each mode, and what is made of it.
use chirpstack_simulator.Themes.{
  is_light_color, normalize_hex, channels, luma_above, parse_int_16, signed_16, unsigned_16,
  without_0x, hex_value, slice, doubled, without_mark, false, Bool, codes, Text, Option, none,
  is_hex, ◌+ℤ◌,
}
use chirpstack_simulator.Themes.Presets.{Theme, preset, solarized_dark, solarized_light}
use chirpstack_simulator.Themes.Toggle.{Storage, Look, last_used, preset_or, item_or}
use chirpstack_simulator.Prelude.{
  Bool, Text, codes, false, none, Option, some, ◌≡◌, true, refl, sym, Bool-cases, Option-cases, ◌∙◌,
  text_eq, inl, ◌∷◌, inr, [], ◌⊎◌, ap, text_eq_iff,
}
use chirpstack_simulator.Telemetry.{is_hex, hex_digit}
use chirpstack_simulator.Prelude.Int.{◌+ℤ◌, ◌*ℤ◌}

abbrev pub light : Theme → Bool
light theme = is_light_color theme.bg

-- The theme is one of the user's own, or the preset of this name.
abbrev pub Chosen : Text → Theme → Type 0
Chosen name theme = (name ≡ codes "custom") ⊎ (preset name ≡ some theme)

-- What the storage has under a mode: nothing, or a theme of that mode with its name.
pub data Kept (mode : Bool) : Option Text → Option Theme → Type 0 where
  nothing : Kept mode none none
  theme_of :
      (name : Text) (theme : Theme)
      → light theme ≡ mode
      → Chosen name theme
      → Kept mode (some name) (some theme)

pub data Saved : Option Theme → Option Text → Type 0 where
  unsaved : Saved none none
  saved : (name : Text) (theme : Theme) → Chosen name theme → Saved (some theme) (some name)

pub record StorageOk (storage : Storage) : Type 0 where
  pub custom : Saved storage.custom_theme storage.custom_preset
  pub dark : Kept false storage.last_dark_preset storage.last_dark_theme
  pub bright : Kept true storage.last_light_preset storage.last_light_theme

pub record LookOk (look : Look) : Type 0 where
  pub named : Chosen look.current_preset look.active_theme
  pub storage : StorageOk look.storage

-- What the source falls back on is a preset of the mode.
pub record Standard (mode : Bool) (name : Text) (theme : Theme) : Type 0 where
  pub known : preset name ≡ some theme
  pub of_mode : light theme ≡ mode

pub standards :
    Standard false (codes "solarized-dark") solarized_dark
    × Standard true (codes "solarized-light") solarized_light
unfolding preset is_light_color normalize_hex channels luma_above parse_int_16 signed_16 unsigned_16
    without_0x hex_value slice doubled without_mark is_hex ◌+ℤ◌ ◌*ℤ◌ hex_digit
standards = (record { known = refl; of_mode = refl }, record { known = refl; of_mode = refl })

pub custom_unknown : preset (codes "custom") ≡ none
unfolding preset
custom_unknown = refl

pub empty_unknown : preset [] ≡ none
unfolding preset
empty_unknown = refl

pub Chosen-preset :
    {name : Text} {theme other : Theme}
    → Chosen name theme
    → preset name ≡ some other
    → theme ≡ other
Chosen-preset (inl e) k = let h = sym custom_unknown ∙ ap preset (sym e) ∙ k in absurd (cc h)
Chosen-preset (inr e) k = cc

pub Chosen-nonempty : {theme : Theme} → ¬ Chosen [] theme
Chosen-nonempty (inl e) = cc
Chosen-nonempty (inr e) = let h = sym empty_unknown ∙ e in cc h

-- A theme of the mode, with its name.
pub record Fits (mode : Bool) (choice : Text × Theme) : Type 0 where
  pub of_mode : light choice.1 ≡ mode
  pub named : Chosen choice.0 choice.1

module _ {mode : Bool} {fallback : Text} {standard : Theme}
    (v : Standard mode fallback standard) where
  pub preset_or-Fits :
      (name : Text)
      → ((theme : Theme) → preset name ≡ some theme → light theme ≡ mode)
      → Fits mode (preset_or name fallback standard (preset name))
  unfolding preset_or
  preset_or-Fits name h = elim (Option-cases (preset name)) [
    | inl e ↦ rw e (record { of_mode = v.of_mode; named = inr v.known })
    | inr (theme, e) ↦ rw e (record { of_mode = h theme e; named = inr e })
  ]

  pub last_used-Fits :
      {name : Option Text} {theme : Option Theme}
      → Kept mode name theme
      → Fits mode (last_used fallback standard (item_or name fallback) theme)
  unfolding last_used item_or
  last_used-Fits nothing =
      preset_or-Fits fallback λ theme e. sym (ap light (Chosen-preset (inr v.known) e)) ∙ v.of_mode
  last_used-Fits (theme_of [] theme l c) = absurd (Chosen-nonempty c)
  last_used-Fits (theme_of (a ∷ s) theme l c) =
      elim (Bool-cases (text_eq (a ∷ s) (codes "custom"))) [
        | inl e ↦ rw e (record { of_mode = l; named = inl refl })
        | inr e ↦ rw e (preset_or-Fits (a ∷ s) λ other k. sym (ap light (Chosen-preset c k)) ∙ l)
      ]

  -- A choice that has been kept is made again.
  pub last_used-again :
      (name : Text) (theme : Theme)
      → Chosen name theme
      → last_used fallback standard (item_or (some name) fallback) (some theme) ≡ (name, theme)
  unfolding last_used item_or preset_or
  last_used-again [] theme c = absurd (Chosen-nonempty c)
  last_used-again (a ∷ s) theme (inl e) =
      rw ((text_eq_iff (a ∷ s) (codes "custom")).1 e) (ap (λ (name : Text). (name, theme)) (sym e))
  last_used-again (a ∷ s) theme (inr e) = elim (Bool-cases (text_eq (a ∷ s) (codes "custom"))) [
    | inl k ↦ absurd (cc (sym custom_unknown ∙ ap preset (sym ((text_eq_iff _ _).0 k)) ∙ e))
    | inr k ↦ rw (k, e) refl
  ]
