-- ===== src/Themes/Toggle.antt =====
-- internal/api/frontend/js/tabs/console.js: the choice of a theme, its editor, and the switch between
-- dark and light. The local storage holds themes here, which `JSON.parse` gives back as
-- `JSON.stringify` took them; only this code writes them.
pub mod Kept
pub mod Flips
pub mod Returns
use chirpstack_simulator.Themes.{is_light_color, Bool, ℕ, Option, Text, if◌then◌else◌, codes}
use chirpstack_simulator.Themes.Presets.{
  Theme, preset, falt_cosmic, solarized_dark, solarized_light,
}
use chirpstack_simulator.Prelude.{
  Text, Option, Bool, ℕ, codes, if◌then◌else◌, List, text_eq, some, text_or, true, ◌∷◌, none, false,
  suc, [], zero,
}

-- The items of the local storage, without `console-` before their names.
pub record Storage : Type 0 where
  pub custom_theme : Option Theme
  pub custom_preset : Option Text
  pub last_dark_preset : Option Text
  pub last_dark_theme : Option Theme
  pub last_light_preset : Option Text
  pub last_light_theme : Option Theme

-- `mark` is whether the toggle shows "☀".
pub record Look : Type 0 where
  pub active_theme : Theme
  pub current_preset : Text
  pub storage : Storage
  pub mark : Bool

pub data Key : Type 0 where
  fg bg cu ca sb sf : Key
  ansi : ℕ → Key

-- What the module does when it is loaded, and what `init` shows on the toggle. An empty name is no name.
unfoldable pub saved_name : Option Text → Text
saved_name none = codes "falt-cosmic"
saved_name (some name) = text_or name (codes "falt-cosmic")

unfoldable pub saved_look : Option Theme → Option Text → Theme × Text
saved_look none name = (falt_cosmic, codes "falt-cosmic")
saved_look (some theme) name = (theme, saved_name name)

unfoldable pub load_look : Storage → Look
load_look storage =
    let (theme, name) = saved_look storage.custom_theme storage.custom_preset in
    record {
      active_theme = theme;
      current_preset = name;
      storage = storage;
      mark = is_light_color theme.bg;
    }

-- The theme that was last used in a mode: `fallback` is the name, and `standard` the theme, that the
-- source uses where there is none or where its name is not known.
unfoldable pub preset_or : Text → Text → Theme → Option Theme → Text × Theme
preset_or name fallback standard none = (fallback, standard)
preset_or name fallback standard (some theme) = (name, theme)

unfoldable pub last_used : Text → Theme → Text → Option Theme → Text × Theme
last_used fallback standard name none = preset_or name fallback standard (preset name)
last_used fallback standard name (some theme) =
    if text_eq name (codes "custom")
    then (codes "custom", theme)
    else preset_or name fallback standard (preset name)

unfoldable pub item_or : Option Text → Text → Text
item_or none fallback = fallback
item_or (some name) fallback = text_or name fallback

unfoldable pub last_dark : Storage → Text × Theme
last_dark storage =
    last_used (codes "solarized-dark") solarized_dark
      (item_or storage.last_dark_preset (codes "solarized-dark")) storage.last_dark_theme

unfoldable pub last_light : Storage → Text × Theme
last_light storage =
    last_used (codes "solarized-light") solarized_light
      (item_or storage.last_light_preset (codes "solarized-light")) storage.last_light_theme

-- What toggleTheme and the Save button write: the theme, and the theme of its mode.
unfoldable pub remember : Bool → Theme → Text → Storage → Storage
remember true theme name storage = record storage {
  custom_theme = some theme;
  custom_preset = some name;
  last_light_preset = some name;
  last_light_theme = some theme;
}
remember false theme name storage = record storage {
  custom_theme = some theme;
  custom_preset = some name;
  last_dark_preset = some name;
  last_dark_theme = some theme;
}

unfoldable pub wear : Text × Theme → Storage → Look
wear (name, theme) storage =
    let light = is_light_color theme.bg in
    record {
      active_theme = theme;
      current_preset = name;
      storage = remember light theme name storage;
      mark = light;
    }

unfoldable pub toggle_theme : Look → Look
toggle_theme look =
    wear
      (if is_light_color look.active_theme.bg
        then last_dark look.storage
        else last_light look.storage)
      look.storage

-- The Save button writes the theme and reloads the page.
unfoldable pub save_theme : Look → Look
save_theme look = load_look (
    remember (is_light_color look.active_theme.bg) look.active_theme look.current_preset
      look.storage)

unfoldable pub set_at : ℕ → Text → List Text → List Text
set_at i color [] = []
set_at zero color (c ∷ cs) = color ∷ cs
set_at (suc i) color (c ∷ cs) = c ∷ set_at i color cs

unfoldable pub with_key : Key → Text → Theme → Theme
with_key fg color theme = record theme { fg = color }
with_key bg color theme = record theme { bg = color }
with_key cu color theme = record theme { cu = color }
with_key ca color theme = record theme { ca = color }
with_key sb color theme = record theme { sb = color }
with_key sf color theme = record theme { sf = color }
with_key (ansi i) color theme = record theme { ansi = set_at i color theme.ansi }

-- A colour is typed into the editor; a preset is chosen; the Reset button. None writes the storage.
unfoldable pub edit_color : Key → Text → Look → Look
edit_color key color look = record look {
  active_theme = with_key key color look.active_theme;
  current_preset = codes "custom";
}

unfoldable pub chosen : Text → Option Theme → Look → Look
chosen selected none look = look
chosen selected (some theme) look = record look { active_theme = theme; current_preset = selected }

unfoldable pub select_preset : Text → Look → Look
select_preset selected look =
    if text_eq selected (codes "custom") then look else chosen selected (preset selected) look

unfoldable pub reset_theme : Look → Look
reset_theme look = record look { active_theme = falt_cosmic; current_preset = codes "falt-cosmic" }
