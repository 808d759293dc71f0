-- ===== src/Passive/Locks.antt =====
-- internal/api/frontend/js/passive-mode-ui.js: what the passive mode locks, with the rows that the
-- tables draw. The page has all the elements; `hint` is the translated text of a locked element.
pub mod Kept
use chirpstack_simulator.OrgConfig.Boxes.{contains}
use chirpstack_simulator.Prelude.{
  Text, Bool, List, ℕ, not, Option, ◌∷◌, codes, if◌then◌else◌, ◌==◌, [], some, none,
}
use Prim.Native.Nat.{ℕ}

-- An element with the selector by which it is found; its `title` may be missing.
pub record Element : Type 0 where
  pub selector : Text
  pub disabled : Bool
  pub passive_locked : Bool
  pub title : Option Text

-- `buttons` are those of the page, and `rows` the elements in the rows of each table, by its number.
pub record Ui : Type 0 where
  pub passive_mode : Bool
  pub badge_shown : Bool
  pub buttons : List Element
  pub rows : ℕ → List Element
  pub toggle_checked : Bool
  pub options_shown : Bool
  pub manual_sync_disabled : Bool

unfoldable pub write_selectors : List Text
write_selectors =
    codes "#btn-add-org"
    ∷ codes "#btn-add-gw"
    ∷ codes "#btn-add-dp"
    ∷ codes "#btn-add-net"
    ∷ codes "#btn-add-dev"
    ∷ []

unfoldable pub row_action_selectors : List Text
row_action_selectors =
    codes ".delete-btn"
    ∷ codes ".edit-btn"
    ∷ codes ".dev-table-interval-select"
    ∷ codes ".dev-interval-select"
    ∷ []

-- The body of both loops.
unfoldable pub set_lock : Text → Bool → Element → Element
set_lock hint is_passive e = record e {
  disabled = is_passive;
  passive_locked = is_passive;
  title = if is_passive then some hint else none;
}

unfoldable pub lock_listed : List Text → Text → Bool → List Element → List Element
lock_listed selectors hint is_passive [] = []
lock_listed selectors hint is_passive (e ∷ es) =
    (if contains e.selector selectors then set_lock hint is_passive e else e)
    ∷ lock_listed selectors hint is_passive es

unfoldable pub apply_row_locks : Text → Bool → Ui → Ui
apply_row_locks hint is_passive ui = record ui {
  rows = λ i. lock_listed row_action_selectors hint is_passive (ui.rows i);
}

unfoldable pub apply_passive_mode_ui : Text → Bool → Ui → Ui
apply_passive_mode_ui hint is_passive ui = apply_row_locks hint is_passive (record ui {
  passive_mode = is_passive;
  badge_shown = is_passive;
  buttons = lock_listed write_selectors hint is_passive ui.buttons;
  toggle_checked = is_passive;
  options_shown = is_passive;
  manual_sync_disabled = not is_passive;
})

-- A table draws its rows and, last of all, applies the locks.
unfoldable pub draw_rows : ℕ → List Element → Ui → Ui
draw_rows table drawn ui = record ui { rows = λ i. if i == table then drawn else ui.rows i }

unfoldable pub render_table : Text → ℕ → List Element → Ui → Ui
render_table hint table drawn ui = apply_row_locks hint ui.passive_mode (draw_rows table drawn ui)
