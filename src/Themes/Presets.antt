-- ===== src/Themes/Presets.antt =====
-- internal/api/frontend/js/utils.js: the themes that the page offers. A key that a theme does not have
-- is the empty text, which is false in a condition as `undefined` is.
use chirpstack_simulator.Prelude.{Text, codes, List, [], ◌∷◌, Option, find_by, text_eq}
use mathlib.Core.Option as Option

-- `ansi` are the keys from 0 to 15.
pub record Theme : Type 0 where
  pub bg : Text
  pub fg : Text
  pub cu : Text
  pub ca : Text
  pub sb : Text
  pub sf : Text
  pub ansi : List Text

abbrev pub falt_cosmic : Theme
falt_cosmic = record {
  bg = codes "#070913";
  fg = codes "#e2e8f0";
  cu = codes "#ff007f";
  ca = codes "#070913";
  sb = codes "#1e1b4b";
  sf = codes "#ffffff";
  ansi =
      codes "#141726"
      ∷ codes "#ff5c00"
      ∷ codes "#00ff87"
      ∷ codes "#ffdf00"
      ∷ codes "#0052ff"
      ∷ codes "#ff007f"
      ∷ codes "#00f2fe"
      ∷ codes "#f1f5f9"
      ∷ codes "#1f243c"
      ∷ codes "#ff7b30"
      ∷ codes "#33ff9e"
      ∷ codes "#ffe533"
      ∷ codes "#3375ff"
      ∷ codes "#ff3399"
      ∷ codes "#33f5ff"
      ∷ codes "#ffffff"
      ∷ [];
}

abbrev pub argonaut : Theme
argonaut = record {
  bg = codes "#0e1019";
  fg = codes "#fffaf4";
  cu = codes "#ff0018";
  ca = codes "#0e1019";
  sb = codes "#002a3b";
  sf = codes "#ffffff";
  ansi =
      codes "#232323"
      ∷ codes "#ff000f"
      ∷ codes "#8ce10a"
      ∷ codes "#ffb900"
      ∷ codes "#008df8"
      ∷ codes "#6c43a6"
      ∷ codes "#00d8eb"
      ∷ codes "#ffffff"
      ∷ codes "#444444"
      ∷ codes "#ff273f"
      ∷ codes "#abe15b"
      ∷ codes "#ffd242"
      ∷ codes "#0092ff"
      ∷ codes "#9a5feb"
      ∷ codes "#67fff0"
      ∷ codes "#ffffff"
      ∷ [];
}

abbrev pub afterglow : Theme
afterglow = record {
  bg = codes "#151515";
  fg = codes "#d6dbe5";
  cu = codes "#d6dbe5";
  ca = codes "#151515";
  sb = codes "#303030";
  sf = codes "#d6dbe5";
  ansi =
      codes "#1c1c1c"
      ∷ codes "#a53d3d"
      ∷ codes "#7b963b"
      ∷ codes "#cca04c"
      ∷ codes "#487bb0"
      ∷ codes "#9e5a8a"
      ∷ codes "#44a69e"
      ∷ codes "#d0d0d0"
      ∷ codes "#505050"
      ∷ codes "#b84c4c"
      ∷ codes "#8fa850"
      ∷ codes "#e0b860"
      ∷ codes "#5c90c4"
      ∷ codes "#b26e9e"
      ∷ codes "#58bab0"
      ∷ codes "#f5f5f5"
      ∷ [];
}

abbrev pub monokai : Theme
monokai = record {
  bg = codes "#272822";
  fg = codes "#f8f8f2";
  cu = codes "#f8f8f0";
  ca = codes "#272822";
  sb = codes "#49483e";
  sf = codes "#f8f8f2";
  ansi =
      codes "#272822"
      ∷ codes "#f92672"
      ∷ codes "#a6e22e"
      ∷ codes "#f4bf75"
      ∷ codes "#66d9ef"
      ∷ codes "#ae81ff"
      ∷ codes "#a1efe4"
      ∷ codes "#f8f8f2"
      ∷ codes "#75715e"
      ∷ codes "#f92672"
      ∷ codes "#a6e22e"
      ∷ codes "#f4bf75"
      ∷ codes "#66d9ef"
      ∷ codes "#ae81ff"
      ∷ codes "#a1efe4"
      ∷ codes "#f9f8f5"
      ∷ [];
}

abbrev pub dracula : Theme
dracula = record {
  bg = codes "#282a36";
  fg = codes "#f8f8f2";
  cu = codes "#f8f8f2";
  ca = codes "#282a36";
  sb = codes "#44475a";
  sf = codes "#f8f8f2";
  ansi =
      codes "#21222c"
      ∷ codes "#ff5555"
      ∷ codes "#50fa7b"
      ∷ codes "#f1fa8c"
      ∷ codes "#8be9fd"
      ∷ codes "#ff79c6"
      ∷ codes "#bd93f9"
      ∷ codes "#f8f8f2"
      ∷ codes "#6272a4"
      ∷ codes "#ff6e6e"
      ∷ codes "#69ff94"
      ∷ codes "#ffffa5"
      ∷ codes "#d6acff"
      ∷ codes "#ff92df"
      ∷ codes "#a4ffff"
      ∷ codes "#ffffff"
      ∷ [];
}

abbrev pub solarized_dark : Theme
solarized_dark = record {
  bg = codes "#002b36";
  fg = codes "#839496";
  cu = codes "#839496";
  ca = codes "#002b36";
  sb = codes "#073642";
  sf = codes "#93a1a1";
  ansi =
      codes "#073642"
      ∷ codes "#dc322f"
      ∷ codes "#859900"
      ∷ codes "#b58900"
      ∷ codes "#268bd2"
      ∷ codes "#d33682"
      ∷ codes "#2aa198"
      ∷ codes "#eee8d5"
      ∷ codes "#002b36"
      ∷ codes "#cb4b16"
      ∷ codes "#586e75"
      ∷ codes "#657b83"
      ∷ codes "#839496"
      ∷ codes "#6c71c4"
      ∷ codes "#93a1a1"
      ∷ codes "#fdf6e3"
      ∷ [];
}

abbrev pub solarized_light : Theme
solarized_light = record {
  bg = codes "#fdf6e3";
  fg = codes "#586e75";
  cu = codes "#586e75";
  ca = codes "#fdf6e3";
  sb = codes "#eee8d5";
  sf = codes "#586e75";
  ansi =
      codes "#eee8d5"
      ∷ codes "#dc322f"
      ∷ codes "#859900"
      ∷ codes "#b58900"
      ∷ codes "#268bd2"
      ∷ codes "#d33682"
      ∷ codes "#2aa198"
      ∷ codes "#073642"
      ∷ codes "#fdf6e3"
      ∷ codes "#cb4b16"
      ∷ codes "#93a1a1"
      ∷ codes "#839496"
      ∷ codes "#657b83"
      ∷ codes "#6c71c4"
      ∷ codes "#586e75"
      ∷ codes "#073642"
      ∷ [];
}

abbrev pub default_theme : Theme
default_theme = record {
  bg = codes "#080a0f";
  fg = codes "#e2e8f0";
  cu = codes "#e2e8f0";
  ca = codes "#080a0f";
  sb = codes "#2563eb";
  sf = codes "#ffffff";
  ansi =
      codes "#1e293b"
      ∷ codes "#ef4444"
      ∷ codes "#22c55e"
      ∷ codes "#eab308"
      ∷ codes "#3b82f6"
      ∷ codes "#a855f7"
      ∷ codes "#06b6d4"
      ∷ codes "#e2e8f0"
      ∷ codes "#475569"
      ∷ codes "#f87171"
      ∷ codes "#4ade80"
      ∷ codes "#facc15"
      ∷ codes "#60a5fa"
      ∷ codes "#c084fc"
      ∷ codes "#22d3ee"
      ∷ codes "#ffffff"
      ∷ [];
}

unfoldable pub presets : List (Text × Theme)
presets =
    (codes "falt-cosmic", falt_cosmic)
    ∷ (codes "argonaut", argonaut)
    ∷ (codes "afterglow", afterglow)
    ∷ (codes "monokai", monokai)
    ∷ (codes "dracula", dracula)
    ∷ (codes "solarized-dark", solarized_dark)
    ∷ (codes "solarized-light", solarized_light)
    ∷ (codes "default", default_theme)
    ∷ []

-- `presets[name]`, where the name is the text of a choice or of an earlier one.
unfoldable pub preset : Text → Option Theme
unfolding presets
preset name =
    Option.map (λ (entry : Text × Theme). entry.1) (find_by (λ entry. text_eq entry.0 name) presets)
