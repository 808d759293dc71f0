-- ===== src/Settings/Stored.antt =====
-- What is shown after a reload, and read by loadOrgConfig, of what was typed.
use chirpstack_simulator.OrgConfig.Loading.{Local, local_value, local_checked}
use chirpstack_simulator.Settings.{
  is_stored, set_item, on_input, on_check, check_box, Entry, types, checks, enter, enter_all,
  startup_value, startup_checked, List, Text, contains, general_field_ids,
}
use chirpstack_simulator.Prelude.{
  List, Text, codes, if◌then◌else◌, Bool, ◌≡◌, ◌++◌, [], true, text_eq, Bool-cases, trim, ◌∷◌, inl,
  inr, refl, false, ◌∙◌, sym, ap, text_eq_iff, ◌&&◌, arith, text_ne_sym,
}
use chirpstack_simulator.OrgConfig.Boxes.{contains}

-- The text that was typed last into a field, trimmed.
unfoldable pub last_typed : Text → List Entry → Text → Text
last_typed id [] before = before
last_typed id (types other value ∷ es) before =
    last_typed id es (if text_eq id other then trim value else before)
last_typed id (checks b ∷ es) before = last_typed id es before

unfoldable pub last_checked : List Entry → Bool → Bool
last_checked [] before = before
last_checked (types id value ∷ es) before = last_checked es before
last_checked (checks b ∷ es) before = last_checked es b

set_item-value :
    (id other value : Text) (local : Local)
    → local_value (set_item (codes "setting-" ++ other) value local) id
      ≡ (if text_eq id other then value else local_value local id)
unfolding local_value set_item
set_item-value id other value local = elim (Bool-cases (text_eq id other)) [
  | inl e ↦ rw e refl
  | inr e ↦ rw e refl
]

not_check_box : (id : Text) → is_stored id ≡ true → text_eq id check_box ≡ false
unfolding is_stored
not_check_box id h = elim (Bool-cases (text_eq id check_box)) [
  | inl e ↦ absurd (
      let both : (contains id general_field_ids && false) ≡ true = rw e at h in
      ground (arith, both))
  | inr e ↦ e
]

other_field :
    (id other : Text) → is_stored id ≡ true → is_stored other ≡ false → text_eq id other ≡ false
other_field id other h n = elim (Bool-cases (text_eq id other)) [
  | inl e ↦ absurd (cc (sym n ∙ ap is_stored (sym ((text_eq_iff id other).0 e)) ∙ h))
  | inr e ↦ e
]

on_input-value :
    (id other value : Text) (local : Local)
    → is_stored id ≡ true
    → local_value (on_input other value local) id
      ≡ (if text_eq id other then trim value else local_value local id)
unfolding on_input
on_input-value id other value local h = elim (Bool-cases (is_stored other)) [
  | inl e ↦ rw e (set_item-value id other (trim value) local)
  | inr e ↦ rw (e, other_field id other h e) refl
]

enter_all-value :
    (id : Text) (es : List Entry) (local : Local)
    → is_stored id ≡ true
    → local_value (enter_all es local) id ≡ last_typed id es (local_value local id)
unfolding enter_all enter on_check last_typed
enter_all-value id [] local h = refl
enter_all-value id (types other value ∷ es) local h =
    enter_all-value id es (on_input other value local) h
    ∙ ap (last_typed id es) (on_input-value id other value local h)
enter_all-value id (checks b ∷ es) local h =
    enter_all-value id es (on_check b local) h
    ∙ ap (last_typed id es) (
        set_item-value id check_box (if b then codes "true" else codes "false") local
        ∙ rw (not_check_box id h) refl)

checked_text : (b : Bool) → text_eq (if b then codes "true" else codes "false") (codes "true") ≡ b
checked_text true = refl
checked_text false = refl

on_check-checked : (b : Bool) (local : Local) → local_checked (on_check b local) check_box ≡ b
unfolding on_check local_checked set_item
on_check-checked b local = checked_text b

on_input-checked :
    (other value : Text) (local : Local)
    → local_checked (on_input other value local) check_box ≡ local_checked local check_box
unfolding on_input set_item local_checked
on_input-checked other value local = elim (Bool-cases (is_stored other)) [
  | inl e ↦
      let apart : text_eq check_box other ≡ false =
        text_ne_sym other check_box (not_check_box other e) in
      rw (e, apart) refl
  | inr e ↦ rw e refl
]

enter_all-checked :
    (es : List Entry) (local : Local)
    → local_checked (enter_all es local) check_box ≡ last_checked es (local_checked local check_box)
unfolding enter_all enter last_checked
enter_all-checked [] local = refl
enter_all-checked (types other value ∷ es) local =
    enter_all-checked es (on_input other value local)
    ∙ ap (last_checked es) (on_input-checked other value local)
enter_all-checked (checks b ∷ es) local =
    enter_all-checked es (on_check b local) ∙ ap (last_checked es) (on_check-checked b local)

-- Whatever is typed and checked: a field that is stored shows after a reload, and gives loadOrgConfig
-- where the server has no configuration, the text that was typed into it last, trimmed, or what it had
-- before; and so does the check box.
pub startup_value-typed :
    (id : Text) (es : List Entry) (local : Local)
    → is_stored id ≡ true
    → (startup_value (enter_all es local) id ≡ last_typed id es (startup_value local id))
      × (local_value (enter_all es local) id ≡ last_typed id es (local_value local id))
      × (startup_checked (enter_all es local) ≡ last_checked es (startup_checked local))
unfolding startup_value startup_checked
startup_value-typed id es local h = (
  rw h (enter_all-value id es local h),
  enter_all-value id es local h,
  enter_all-checked es local,
)
