-- ===== src/Tabs/Networks/Listed.antt =====
-- What the network table shows: which rows, and in which order.
use mathlib.Core.Path.{subst}
use mathlib.Core.List.{Perm}
use chirpstack_simulator.State.{Engine, State, Application}
use chirpstack_simulator.Tabs.Networks.{
  apply_app_filters_and_render, ℕ, Text, app_compare, Bool, app_sort_text, get_org_name,
  app_property, app_matches,
}
use chirpstack_simulator.Tabs.Networks.Rows.{
  app_wanted, app_compare-IsOrder, apply_app_filters_and_render_view,
}
use chirpstack_simulator.Prelude.{
  Text, Bool, ℕ, true, truthy, codes, text_eq, leb, ◌∷◌, ◌≡◌, [], compare, text_compare, sym, false,
  arith, ◌&&◌, ◌||◌, ltb, ◌∙◌, refl, includes, ◌==◌, ap, not, List, filter_by,
}
use chirpstack_simulator.Table.Defs.{Dir, asc, not_after, directed, desc}
use chirpstack_simulator.Tabs.Names.{get_org_name, created_time}
use chirpstack_simulator.Prelude.Sorting.{IsSorted, IsSorted-mono}

-- The columns that the table can be sorted by, and their keys.
pub data Column : Type 0 where
  by_id by_name by_tenant by_created : Column

abbrev pub key_of : Column → Text
key_of by_id = codes "id"
key_of by_name = codes "name"
key_of by_tenant = codes "tenant_id"
key_of by_created = codes "created_at"

-- The order of the words of a dictionary.
abbrev pub text_le : Text → Text → Bool
text_le [] t = true
text_le (c ∷ s) [] = false
text_le (c ∷ s) (d ∷ t) = ltb c d || (c == d && text_le s t)

-- A row may stand above another one in a table that ascends by a column: by its id, its name or the
-- name of its tenant without regard to case, or by the time of its creation.
abbrev pub above : Engine → State → Column → Application → Application → Bool
above js s by_id a b = text_le (js.to_lower a.id) (js.to_lower b.id)
above js s by_name a b = text_le (js.to_lower a.name) (js.to_lower b.name)
above js s by_tenant a b =
    text_le (js.to_lower (get_org_name s a.tenant_id)) (js.to_lower (get_org_name s b.tenant_id))
above js s by_created a b =
    leb (created_time js a.created_at a.created_at_camel a.created)
      (created_time js b.created_at b.created_at_camel b.created)

abbrev pub above_in : Dir → Engine → State → Column → Application → Application → Bool
above_in asc js s column a b = above js s column a b
above_in desc js s column a b = above js s column b a

-- A network is listed: it is of the chosen tenant, where one is chosen, and the search text occurs in
-- its name or in the id of its tenant, without regard to case.
abbrev pub is_listed : Engine → State → Application → Bool
is_listed js s app =
    let q = js.to_lower s.net_view.search_query in
    (text_eq s.net_view.tenant_filter [] || text_eq app.tenant_id s.net_view.tenant_filter)
    && (text_eq q [] || includes q (js.to_lower app.name) || includes q (js.to_lower app.tenant_id))

text_le_lem : (a b : Text) → not_after (text_compare a b) ≡ text_le a b
text_le_lem [] [] = refl
text_le_lem [] (d ∷ t) = refl
text_le_lem (c ∷ s) [] = refl
text_le_lem (c ∷ s) (d ∷ t) = ground (arith, text_le_lem s t)

leb_lem : (a b : ℕ) → not_after (compare a b) ≡ leb a b
leb_lem a b = ground arith

above_lem :
    (js : Engine) (s : State) (column : Column) (a b : Application)
    → not_after (app_compare js s (key_of column) a b) ≡ above js s column a b
unfolding app_compare app_sort_text app_property
above_lem js s by_id a b = text_le_lem (js.to_lower a.id) (js.to_lower b.id)
above_lem js s by_name a b = text_le_lem (js.to_lower a.name) (js.to_lower b.name)
above_lem js s by_tenant a b =
    text_le_lem (js.to_lower (get_org_name s a.tenant_id))
      (js.to_lower (get_org_name s b.tenant_id))
above_lem js s by_created a b =
    leb_lem (created_time js a.created_at a.created_at_camel a.created)
      (created_time js b.created_at b.created_at_camel b.created)

above_in_lem :
    (dir : Dir) (js : Engine) (s : State) (column : Column) (a b : Application)
    → directed dir (app_compare js s (key_of column)) a b ≡ true
    → above_in dir js s column a b ≡ true
above_in_lem asc js s column a b h = sym (above_lem js s column a b) ∙ h
above_in_lem desc js s column a b h =
    sym (above_lem js s column b a)
    ∙ ap not_after ((app_compare-IsOrder js s (key_of column)).swapped a b)
    ∙ h

not-truthy : (t : Text) → not (truthy t) ≡ text_eq t []
not-truthy [] = refl
not-truthy (c ∷ t) = refl

-- The empty text has no text in it but the empty one, so the source's test for it changes nothing.
in_text :
    (js : Engine) (c : ℕ) (q t : Text)
    → js.to_lower [] ≡ []
    → (truthy t && includes (c ∷ q) (js.to_lower t)) ≡ includes (c ∷ q) (js.to_lower t)
in_text js c q [] e = rw e refl
in_text js c q (d ∷ t) e = refl

searched :
    (js : Engine) (q : Text) (app : Application)
    → js.to_lower [] ≡ []
    → (not (truthy q) || app_matches js q app) ≡ (
        text_eq q [] || includes q (js.to_lower app.name) || includes q (js.to_lower app.tenant_id))
unfolding app_matches
searched js [] app e = refl
searched js (c ∷ q) app e = rw (in_text js c q app.name e, in_text js c q app.tenant_id e) refl

app_wanted_lem :
    (js : Engine) (s : State) (app : Application)
    → js.to_lower [] ≡ []
    → app_wanted js s app ≡ is_listed js s app
unfolding app_wanted
app_wanted_lem js s app e =
    rw
      (not-truthy s.net_view.tenant_filter, searched js (js.to_lower s.net_view.search_query) app e)
      refl

filter_by_same :
    {A : Type 0} (p q : A → Bool) (xs : List A)
    → ((x : A) → p x ≡ q x)
    → filter_by p xs ≡ filter_by q xs
filter_by_same p q [] e = refl
filter_by_same p q (x ∷ xs) e = rw (e x, filter_by_same p q xs e) refl

-- After the filters of the network table have been applied, the table holds exactly the networks that
-- belong to the selected tenant, if one is selected, and have the search text in their name or in the
-- id of their tenant, if there is one, each as often as the server sent it. They ascend, or descend if
-- that is chosen, by the chosen column: the id, the name, the name of the tenant or the time of the
-- creation. Case does not count, and the empty text is to have the empty text as its lower case.
pub apply_app_filters_and_render-Shows :
    (js : Engine) (s : State) (column : Column)
    → js.to_lower [] ≡ []
    → s.net_view.sort.key ≡ key_of column
    → let shown = (apply_app_filters_and_render js s).0.net_view.filtered in
      IsSorted (above_in s.net_view.sort.dir js s column) shown
      × Perm shown (filter_by (is_listed js s) s.applications)
unfolding apply_app_filters_and_render
apply_app_filters_and_render-Shows js s column e key =
    let v = apply_app_filters_and_render_view js s in
    (
      IsSorted-mono (directed s.net_view.sort.dir (app_compare js s s.net_view.sort.key))
          (above_in s.net_view.sort.dir js s column) _
          (λ a b h. above_in_lem s.net_view.sort.dir js s column a b (
            subst (λ (k : Text). directed s.net_view.sort.dir (app_compare js s k) a b ≡ true) key
              h))
          v.ordered,
      subst (Perm _)
          (filter_by_same (app_wanted js s) (is_listed js s) s.applications
            (λ app. app_wanted_lem js s app e))
          v.complete,
    )
