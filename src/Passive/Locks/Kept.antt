-- ===== src/Passive/Locks/Kept.antt =====
-- The locks, over every sequence of changes of the mode and drawn tables.
use chirpstack_simulator.Passive.Locks.{
  Element, Ui, set_lock, lock_listed, apply_passive_mode_ui, render_table, Text, List, Bool, ℕ, ◌∷◌,
  some, none, apply_row_locks, write_selectors, draw_rows, row_action_selectors, not,
}
use chirpstack_simulator.OrgConfig.Boxes.{contains}
use chirpstack_simulator.Prelude.{
  Text, List, filter_by, Bool, ℕ, All, ◌≡◌, if◌then◌else◌, some, Bool-cases, inl, none, inr, [],
  refl, ◌==◌,
}

module _ (hint : Text) where
  pub data Event : Ui → Ui → Type 0 where
    changes : {s : Ui} (is_passive : Bool) → Event s (apply_passive_mode_ui hint is_passive s)
    renders :
        {s : Ui} (table : ℕ) (drawn : List Element) → Event s (render_table hint table drawn s)

  pub data Reached : Ui → Type 0 where
    starts : (s : Ui) (is_passive : Bool) → Reached (apply_passive_mode_ui hint is_passive s)
    then_event : {s t : Ui} → Reached s → Event s t → Reached t

abbrev pub listed : List Text → List Element → List Element
listed selectors es = filter_by (λ (e : Element). contains e.selector selectors) es

-- What a locked element looks like, and one that is not.
pub record Locked (hint : Text) (is_passive : Bool) (e : Element) : Type 0 where
  pub disabled : e.disabled ≡ is_passive
  pub passive_locked : e.passive_locked ≡ is_passive
  pub title : e.title ≡ (if is_passive then some hint else none)

lock_listed-Locked :
    (selectors : List Text) (hint : Text) (is_passive : Bool) (es : List Element)
    → All (Locked hint is_passive) (listed selectors (lock_listed selectors hint is_passive es))
unfolding lock_listed set_lock
lock_listed-Locked selectors hint is_passive [] = tt
lock_listed-Locked selectors hint is_passive (e ∷ es) =
    elim (Bool-cases (contains e.selector selectors)) [
      | inl k ↦
          rw (k, k)
            (
              record { disabled = refl; passive_locked = refl; title = refl },
              lock_listed-Locked selectors hint is_passive es,
            )
      | inr k ↦ rw (k, k) (lock_listed-Locked selectors hint is_passive es)
    ]

pub record Agrees (hint : Text) (s : Ui) : Type 0 where
  pub buttons : All (Locked hint s.passive_mode) (listed write_selectors s.buttons)
  pub rows :
      (table : ℕ) → All (Locked hint s.passive_mode) (listed row_action_selectors (s.rows table))
  pub badge : s.badge_shown ≡ s.passive_mode
  pub toggle : s.toggle_checked ≡ s.passive_mode
  pub options : s.options_shown ≡ s.passive_mode
  pub manual : s.manual_sync_disabled ≡ not s.passive_mode

module _ {hint : Text} where
  pub change-Agrees :
      (is_passive : Bool) (s : Ui) → Agrees hint (apply_passive_mode_ui hint is_passive s)
  unfolding apply_passive_mode_ui apply_row_locks
  change-Agrees is_passive s = record {
    buttons = lock_listed-Locked write_selectors hint is_passive s.buttons;
    rows = λ table. lock_listed-Locked row_action_selectors hint is_passive (s.rows table);
    badge = refl;
    toggle = refl;
    options = refl;
    manual = refl;
  }

  pub render-Agrees :
      (table : ℕ) (drawn : List Element) (s : Ui)
      → Agrees hint s
      → Agrees hint (render_table hint table drawn s)
  unfolding render_table apply_row_locks draw_rows
  render-Agrees table drawn s v = record {
    buttons = v.buttons;
    rows = λ other.
        lock_listed-Locked row_action_selectors hint s.passive_mode
          (if other == table then drawn else s.rows other);
    badge = v.badge;
    toggle = v.toggle;
    options = v.options;
    manual = v.manual;
  }

  -- However changes of the passive mode and drawn tables follow each other, whatever the drawn rows held:
  -- the buttons that create, and in the rows of every table the buttons and selects that change, are
  -- disabled and have the hint as their title exactly while the mode is on, and have no title at all
  -- while it is off; badge, toggle, options and the manual sync show the same mode.
  pub Reached-Agrees : {s : Ui} → Reached hint s → Agrees hint s
  Reached-Agrees (starts s is_passive) = change-Agrees is_passive s
  Reached-Agrees (then_event r (changes is_passive)) = change-Agrees is_passive _
  Reached-Agrees (then_event r (renders table drawn)) =
      render-Agrees table drawn _ (Reached-Agrees r)
