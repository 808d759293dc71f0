-- ===== src/Themes/Toggle/Flips.antt =====
-- The switch between dark and light, over every sequence of choices, edits, saves and reloads.
use chirpstack_simulator.Themes.{is_light_color, false, Bool, codes, Text, Option, none}
use chirpstack_simulator.Themes.Presets.{Theme, preset, falt_cosmic}
use chirpstack_simulator.Themes.Toggle.{
  Storage, Look, Key, load_look, toggle_theme, save_theme, edit_color, select_preset, reset_theme,
  remember, last_dark, saved_look, wear, last_light, saved_name, chosen,
}
use chirpstack_simulator.Prelude.{
  Bool, Text, codes, false, none, Option, some, ◌≡◌, true, refl, sym, Bool-cases, ◌∙◌, text_eq, inl,
  ◌∷◌, inr, [], not, ap,
}
use chirpstack_simulator.Themes.Toggle.Kept.{
  light, Saved, LookOk, StorageOk, Fits, Chosen, saved, unsaved, last_used-Fits, theme_of,
  standards, Chosen-nonempty, nothing,
}

pub data Event : Look → Look → Type 0 where
  toggles : {s : Look} → Event s (toggle_theme s)
  saves : {s : Look} → Event s (save_theme s)
  edits : {s : Look} (key : Key) (color : Text) → Event s (edit_color key color s)
  selects : {s : Look} (selected : Text) → Event s (select_preset selected s)
  resets : {s : Look} → Event s (reset_theme s)
  reloads : {s : Look} → Event s (load_look s.storage)

abbrev pub empty_storage : Storage
empty_storage = record {
  custom_theme = none;
  custom_preset = none;
  last_dark_preset = none;
  last_dark_theme = none;
  last_light_preset = none;
  last_light_theme = none;
}

pub data Reached : Look → Type 0 where
  starts : Reached (load_look empty_storage)
  then_event : {s t : Look} → Reached s → Event s t → Reached t

pub last_dark-Fits : (storage : Storage) → StorageOk storage → Fits false (last_dark storage)
unfolding last_dark
last_dark-Fits storage v = last_used-Fits (standards.0) v.dark

pub last_light-Fits : (storage : Storage) → StorageOk storage → Fits true (last_light storage)
unfolding last_light
last_light-Fits storage v = last_used-Fits (standards.1) v.bright

pub remember-StorageOk :
    (mode : Bool) (theme : Theme) (name : Text) (storage : Storage)
    → light theme ≡ mode
    → Chosen name theme
    → StorageOk storage
    → StorageOk (remember mode theme name storage)
unfolding remember
remember-StorageOk true theme name storage l c v = record {
  custom = saved name theme c;
  dark = v.dark;
  bright = theme_of name theme l c;
}
remember-StorageOk false theme name storage l c v = record {
  custom = saved name theme c;
  dark = theme_of name theme l c;
  bright = v.bright;
}

cosmic_known : preset (codes "falt-cosmic") ≡ some falt_cosmic
unfolding preset
cosmic_known = refl

saved_look-Chosen :
    {theme : Option Theme} {name : Option Text}
    → Saved theme name
    → Chosen (saved_look theme name).1 (saved_look theme name).0
unfolding saved_look saved_name
saved_look-Chosen unsaved = inr cosmic_known
saved_look-Chosen (saved [] theme c) = absurd (Chosen-nonempty c)
saved_look-Chosen (saved (a ∷ s) theme c) = c

load_look-LookOk : (storage : Storage) → StorageOk storage → LookOk (load_look storage)
unfolding load_look
load_look-LookOk storage v = record { named = saved_look-Chosen v.custom; storage = v }

pub wear-LookOk :
    {mode : Bool} (choice : Text × Theme) (storage : Storage)
    → Fits mode choice
    → StorageOk storage
    → LookOk (wear choice storage)
unfolding wear
wear-LookOk (name, theme) storage f v = record {
  named = f.named;
  storage = remember-StorageOk (light theme) theme name storage refl f.named v;
}

module _ (look : Look) where
  pub leaves_light :
      light look.active_theme ≡ true
      → toggle_theme look ≡ wear (last_dark look.storage) look.storage
  unfolding toggle_theme
  leaves_light e = rw e refl

  pub leaves_dark :
      light look.active_theme ≡ false
      → toggle_theme look ≡ wear (last_light look.storage) look.storage
  unfolding toggle_theme
  leaves_dark e = rw e refl

pub wear_theme :
    (choice : Text × Theme) (storage : Storage)
    → ((wear choice storage).active_theme ≡ choice.1)
      × ((wear choice storage).current_preset ≡ choice.0)
      × ((wear choice storage).storage ≡ remember (light choice.1) choice.1 choice.0 storage)
unfolding wear
wear_theme (name, theme) storage = (refl, refl, refl)

record Flipped (look next : Look) : Type 0 where
  pub ok : LookOk next
  pub flips : light next.active_theme ≡ not (light look.active_theme)

toggle_theme-Flipped : (look : Look) → LookOk look → Flipped look (toggle_theme look)
toggle_theme-Flipped look v = elim (Bool-cases (light look.active_theme)) [
  | inl e ↦
      let f = last_dark-Fits look.storage v.storage in
      rw (leaves_light look e) (record {
        ok = wear-LookOk (last_dark look.storage) look.storage f v.storage;
        flips = ap light (wear_theme _ look.storage).0 ∙ f.of_mode ∙ ap not (sym e);
      })
  | inr e ↦
      let f = last_light-Fits look.storage v.storage in
      rw (leaves_dark look e) (record {
        ok = wear-LookOk (last_light look.storage) look.storage f v.storage;
        flips = ap light (wear_theme _ look.storage).0 ∙ f.of_mode ∙ ap not (sym e);
      })
]

chosen-LookOk :
    (selected : Text) (o : Option Theme) (look : Look)
    → preset selected ≡ o
    → LookOk look
    → LookOk (chosen selected o look)
unfolding chosen
chosen-LookOk selected none look e v = v
chosen-LookOk selected (some theme) look e v = record { named = inr e; storage = v.storage }

select_preset-LookOk :
    (selected : Text) (look : Look) → LookOk look → LookOk (select_preset selected look)
unfolding select_preset
select_preset-LookOk selected look v = elim (Bool-cases (text_eq selected (codes "custom"))) [
  | inl e ↦ rw e v
  | inr e ↦ rw e (chosen-LookOk selected (preset selected) look refl v)
]

Event-LookOk : {s t : Look} → Event s t → LookOk s → LookOk t
unfolding save_theme edit_color reset_theme
Event-LookOk {s} toggles v = (toggle_theme-Flipped s v).ok
Event-LookOk {s} saves v = load_look-LookOk _ (
    remember-StorageOk (light s.active_theme) s.active_theme s.current_preset s.storage refl v.named
      v.storage)
Event-LookOk {s} (edits key color) v = record { named = inl refl; storage = v.storage }
Event-LookOk {s} (selects selected) v = select_preset-LookOk selected s v
Event-LookOk {s} resets v = record { named = inr cosmic_known; storage = v.storage }
Event-LookOk {s} reloads v = load_look-LookOk s.storage v.storage

pub Reached-LookOk : {s : Look} → Reached s → LookOk s
Reached-LookOk starts =
    load_look-LookOk empty_storage (record { custom = unsaved; dark = nothing; bright = nothing })
Reached-LookOk (then_event r e) = Event-LookOk e (Reached-LookOk r)

-- However the user has chosen presets, edited colours, saved, reset and toggled, and whatever the
-- browser has kept of it, the toggle goes from a dark theme to a light one and from a light to a dark.
pub toggle_theme-flips :
    {s : Look}
    → Reached s
    → is_light_color (toggle_theme s).active_theme.bg ≡ not (is_light_color s.active_theme.bg)
toggle_theme-flips {s} r = (toggle_theme-Flipped s (Reached-LookOk r)).flips
