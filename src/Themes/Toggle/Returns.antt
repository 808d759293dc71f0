-- ===== src/Themes/Toggle/Returns.antt =====
-- What the toggle comes back to.
use chirpstack_simulator.Themes.Toggle.Kept.{
  light, last_used-again, standards, Fits, Chosen, StorageOk,
}
use chirpstack_simulator.Themes.Toggle.Flips.{
  Reached, last_dark-Fits, last_light-Fits, wear_theme, Reached-LookOk, wear-LookOk, leaves_dark,
  leaves_light,
}
use chirpstack_simulator.Themes.Toggle.{
  last_dark, last_light, Storage, remember, wear, toggle_theme, Theme, Look, is_light_color,
  last_used, item_or, preset_or,
}
use chirpstack_simulator.Prelude.{
  Bool, Text, ◌≡◌, false, true, ap, ◌∙◌, Bool-cases, none, sym, inl, inr, codes, refl, Option, some,
}
use chirpstack_simulator.Themes.Presets.{Theme, solarized_dark, preset}
use chirpstack_simulator.Themes.{is_light_color}

-- The other mode's choice does not touch what a mode has kept.
dark_kept :
    (name other : Text) (theme next : Theme) (storage : Storage)
    → Chosen name theme
    → last_dark (remember true next other (remember false theme name storage)) ≡ (name, theme)
unfolding last_dark remember
dark_kept name other theme next storage c = last_used-again (standards.0) name theme c

light_kept :
    (name other : Text) (theme next : Theme) (storage : Storage)
    → Chosen name theme
    → last_light (remember false next other (remember true theme name storage)) ≡ (name, theme)
unfolding last_light remember
light_kept name other theme next storage c = last_used-again (standards.1) name theme c

wear_storage :
    {mode : Bool} (choice : Text × Theme) (storage : Storage)
    → Fits mode choice
    → (wear choice storage).storage ≡ remember mode choice.1 choice.0 storage
wear_storage choice storage f =
    (wear_theme choice storage).2
    ∙ ap (λ (mode : Bool). remember mode choice.1 choice.0 storage) f.of_mode

light-wear :
    {mode : Bool} (choice : Text × Theme) (storage : Storage)
    → Fits mode choice
    → light (wear choice storage).active_theme ≡ mode
light-wear choice storage f = ap light (wear_theme choice storage).0 ∙ f.of_mode

-- Two more toggles after one that put on a dark theme, or a light one, put it on again.
back_to_dark :
    (storage : Storage)
    → StorageOk storage
    → let once = wear (last_dark storage) storage in
      toggle_theme (toggle_theme once) ≡ wear (last_dark storage) (toggle_theme once).storage
back_to_dark storage v =
    let d = last_dark storage in
    let f = last_dark-Fits storage v in
    let once = wear d storage in
    let c = last_light once.storage in
    let f2 = last_light-Fits once.storage (wear-LookOk d storage f v).storage in
    let off = leaves_dark once (light-wear d storage f) in
    let kept =
      ap (λ (l : Look). l.storage) off
      ∙ wear_storage c once.storage f2
      ∙ ap (remember true c.1 c.0) (wear_storage d storage f) in
    let lit = ap (λ (l : Look). light l.active_theme) off ∙ light-wear c once.storage f2 in
    leaves_light (toggle_theme once) lit
    ∙ ap (λ (choice : Text × Theme). wear choice (toggle_theme once).storage)
        (ap last_dark kept ∙ dark_kept d.0 c.0 d.1 c.1 storage f.named)

back_to_light :
    (storage : Storage)
    → StorageOk storage
    → let once = wear (last_light storage) storage in
      toggle_theme (toggle_theme once) ≡ wear (last_light storage) (toggle_theme once).storage
back_to_light storage v =
    let d = last_light storage in
    let f = last_light-Fits storage v in
    let once = wear d storage in
    let c = last_dark once.storage in
    let f2 = last_dark-Fits once.storage (wear-LookOk d storage f v).storage in
    let off = leaves_light once (light-wear d storage f) in
    let kept =
      ap (λ (l : Look). l.storage) off
      ∙ wear_storage c once.storage f2
      ∙ ap (remember false c.1 c.0) (wear_storage d storage f) in
    let dimmed = ap (λ (l : Look). light l.active_theme) off ∙ light-wear c once.storage f2 in
    leaves_dark (toggle_theme once) dimmed
    ∙ ap (λ (choice : Text × Theme). wear choice (toggle_theme once).storage)
        (ap last_light kept ∙ light_kept d.0 c.0 d.1 c.1 storage f.named)

abbrev Same : Look → Look → Type 0
Same a b = (a.active_theme ≡ b.active_theme) × (a.current_preset ≡ b.current_preset)

worn_again :
    (choice : Text × Theme) (storage later : Storage) (thrice : Look)
    → thrice ≡ wear choice later
    → Same thrice (wear choice storage)
worn_again choice storage later thrice e =
    let (theme, name, _) = wear_theme choice storage in
    let (theme', name', _) = wear_theme choice later in
    (
      ap (λ (l : Look). l.active_theme) e ∙ theme' ∙ sym theme,
      ap (λ (l : Look). l.current_preset) e ∙ name' ∙ sym name,
    )

-- However the page has come to its look: once the toggle has been pressed, pressing it twice more gives
-- the same theme under the same name.
pub toggle_theme-thrice :
    {s : Look}
    → Reached s
    → let once = toggle_theme s in
      let thrice = toggle_theme (toggle_theme once) in
      (thrice.active_theme ≡ once.active_theme) × (thrice.current_preset ≡ once.current_preset)
toggle_theme-thrice {s} r =
    let v = (Reached-LookOk r).storage in
    elim (Bool-cases (light s.active_theme)) [
      | inl e ↦
          rw (leaves_light s e)
            (worn_again (last_dark s.storage) s.storage _ _ (back_to_dark s.storage v))
      | inr e ↦
          rw (leaves_dark s e)
            (worn_again (last_light s.storage) s.storage _ _ (back_to_light s.storage v))
    ]

last_used_default :
    (o : Option Theme)
    → last_used (codes "solarized-dark") solarized_dark (item_or none (codes "solarized-dark")) o
      ≡ (codes "solarized-dark", solarized_dark)
unfolding last_used item_or preset_or preset
last_used_default none = refl
last_used_default (some theme) = refl

last_dark_default :
    (storage : Storage)
    → storage.last_dark_preset ≡ none
    → last_dark storage ≡ (codes "solarized-dark", solarized_dark)
unfolding last_dark
last_dark_default storage n = rw n (last_used_default storage.last_dark_theme)

remember_light :
    (theme : Theme) (name : Text) (storage : Storage)
    → (remember true theme name storage).last_dark_preset ≡ storage.last_dark_preset
unfolding remember
remember_light theme name storage = refl

-- If nothing has been kept of the dark mode, two presses of the toggle turn a dark theme, whatever it
-- is, into "solarized-dark".
pub toggle_theme_lost :
    {s : Look}
    → Reached s
    → is_light_color s.active_theme.bg ≡ false
    → s.storage.last_dark_preset ≡ none
    → (toggle_theme (toggle_theme s)).active_theme ≡ solarized_dark
toggle_theme_lost {s} r e n =
    let c = last_light s.storage in
    let f = last_light-Fits s.storage (Reached-LookOk r).storage in
    let once = wear c s.storage in
    let off =
      ap (λ (l : Storage). l.last_dark_preset) (wear_storage c s.storage f)
      ∙ remember_light c.1 c.0 s.storage
      ∙ n in
    ap (λ (l : Look). (toggle_theme l).active_theme) (leaves_dark s e)
    ∙ ap (λ (l : Look). l.active_theme) (leaves_light once (light-wear c s.storage f))
    ∙ (wear_theme (last_dark once.storage) once.storage).0
    ∙ ap (λ (choice : Text × Theme). choice.1) (last_dark_default once.storage off)
