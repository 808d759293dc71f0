-- ===== src/Session/Shell/Clicks.antt =====
-- The tab that is shown, its link and the side bar, over every sequence of clicks.
use mathlib.Core.Path.{subst}
use chirpstack_simulator.Session.Shell.{
  Shell, Content, Link, Filters, activate, deactivate, mark, content_id, switch_tab, click_tab,
  click_hamburger, close_sidebar, click_page, title_in, titles, update_page_title, List, Text,
}
use chirpstack_simulator.Prelude.{
  List, Text, ◌∷◌, map, ◌≡◌, All, text_eq, ℕ, true, Bool-cases, sym, [], Bool, false, inl, inr, leb,
  ◌&&◌, ap, arith, refl, not, ◌∙◌, text_eq_iff,
}

abbrev pub Fresh : Text → List Text → Type 0
Fresh id ids = All (λ x. text_eq x id ≡ false) ids

abbrev pub Distinct : List Text → Type 0
Distinct [] = Unit
Distinct (id ∷ ids) = Fresh id ids × Distinct ids

abbrev pub ids_of : List Content → List Text
ids_of cs = map (λ (c : Content). c.id) cs

module _ (t : Text → Text) where
  pub data Event : Shell → Shell → Type 0 where
    clicks_tab :
        {s : Shell} (f : Filters) (inner_width : ℕ) (tab : Text)
        → Event s (click_tab t f inner_width tab s)
    clicks_hamburger : {s : Shell} → Event s (click_hamburger s)
    clicks_close : {s : Shell} → Event s (close_sidebar s)
    clicks_page :
        {s : Shell} (in_sidebar in_hamburger : Bool)
        → Event s (click_page in_sidebar in_hamburger s)

  -- The page once `init` has switched to its first tab.
  pub data Reached : Shell → Type 0 where
    starts :
        (s : Shell) (f : Filters) (tab : Text)
        → s.open_mark ≡ s.sidebar_open
        → Distinct (ids_of s.contents)
        → Reached (switch_tab t f tab s).0
    then_event : {s s' : Shell} → Reached s → Event s s' → Reached s'

  pub record Shows (s : Shell) : Type 0 where
    pub content : All (λ c. c.active ≡ text_eq c.id (content_id s.current_tab)) s.contents
    pub link : All (λ l. l.active ≡ text_eq l.data_tab s.current_tab) s.links
    pub title : s.title ≡ title_in t s.current_tab titles
    pub button : s.open_mark ≡ s.sidebar_open
    pub distinct : Distinct (ids_of s.contents)

Fresh-eq : (id id' : Text) (ids : List Text) → text_eq id id' ≡ true → Fresh id ids → Fresh id' ids
Fresh-eq id id' ids e h = subst (λ x. Fresh x ids) ((text_eq_iff id id').0 e) h

deactivate-off :
    (id : Text) (cs : List Content)
    → Fresh id (ids_of cs)
    → All (λ c. c.active ≡ text_eq c.id id) (map deactivate cs)
unfolding deactivate
deactivate-off id [] h = tt
deactivate-off id (c ∷ cs) h = (sym (h.0), deactivate-off id cs (h.1))

activate_lem :
    (id : Text) (cs : List Content)
    → Distinct (ids_of cs)
    → All (λ c. c.active ≡ text_eq c.id id) (activate id (map deactivate cs))
unfolding activate deactivate
activate_lem id [] d = tt
activate_lem id (c ∷ cs) d = elim (Bool-cases (text_eq c.id id)) [
  | inl e ↦ rw e (sym e, deactivate-off id cs (Fresh-eq c.id id (ids_of cs) e (d.0)))
  | inr e ↦ rw e (sym e, activate_lem id cs (d.1))
]

ids_of-activate : (id : Text) (cs : List Content) → ids_of (activate id cs) ≡ ids_of cs
unfolding activate
ids_of-activate id [] = refl
ids_of-activate id (c ∷ cs) = ground (arith, ids_of-activate id cs)

ids_of-deactivate : (cs : List Content) → ids_of (map deactivate cs) ≡ ids_of cs
unfolding deactivate
ids_of-deactivate [] = refl
ids_of-deactivate (c ∷ cs) = ap (c.id ∷◌) (ids_of-deactivate cs)

mark_lem :
    (name : Text) (ls : List Link)
    → All (λ l. l.active ≡ text_eq l.data_tab name) (map (mark name) ls)
unfolding mark
mark_lem name [] = tt
mark_lem name (l ∷ ls) = (refl, mark_lem name ls)

module _ {t : Text → Text} where
  switch_tab-Shows :
      (f : Filters) (tab : Text) (s : Shell)
      → s.open_mark ≡ s.sidebar_open
      → Distinct (ids_of s.contents)
      → Shows t (switch_tab t f tab s).0
  unfolding switch_tab update_page_title
  switch_tab-Shows f tab s b d = record {
    content = activate_lem (content_id tab) s.contents d;
    link = mark_lem tab s.links;
    title = refl;
    button = b;
    distinct =
        subst Distinct (sym (ids_of-activate (content_id tab) _ ∙ ids_of-deactivate s.contents)) d;
  }

  bar-Shows :
      {s : Shell} (is_open : Bool)
      → Shows t s
      → Shows t (record s { sidebar_open = is_open; open_mark = is_open })
  bar-Shows is_open v = record {
    content = v.content;
    link = v.link;
    title = v.title;
    button = refl;
    distinct = v.distinct;
  }

  click_tab-Shows :
      (f : Filters) (inner_width : ℕ) (tab : Text) (s : Shell)
      → Shows t s
      → Shows t (click_tab t f inner_width tab s)
  unfolding click_tab
  click_tab-Shows f inner_width tab s v =
      let w = switch_tab-Shows f tab s v.button v.distinct in
      elim (Bool-cases (leb inner_width 900)) [ inl e ↦ rw e (bar-Shows false w) | inr e ↦ rw e w ]

  Event-Shows : {s s' : Shell} → Event t s s' → Shows t s → Shows t s'
  unfolding click_hamburger close_sidebar click_page
  Event-Shows {s} (clicks_tab f inner_width tab) v = click_tab-Shows f inner_width tab s v
  Event-Shows {s} clicks_hamburger v = bar-Shows _ v
  Event-Shows {s} clicks_close v = bar-Shows _ v
  Event-Shows {s} (clicks_page in_sidebar in_hamburger) v =
      elim (Bool-cases (s.sidebar_open && not in_sidebar && not in_hamburger)) [
        | inl e ↦ rw e (bar-Shows false v)
        | inr e ↦ rw e v
      ]

  -- Where the contents of the page have different ids, every sequence of clicks on tabs, on the button of
  -- the side bar and elsewhere leaves exactly the content and the links of the current tab active, its
  -- title in the title bar, and on the button the mark of the side bar's state.
  pub Reached-Shows : {s : Shell} → Reached t s → Shows t s
  Reached-Shows (starts s f tab b d) = switch_tab-Shows f tab s b d
  Reached-Shows (then_event r e) = Event-Shows e (Reached-Shows r)
