-- ===== src/Tabs/Networks/Handlers.antt =====
-- Where the handlers of the network table lead.
use chirpstack_simulator.Prelude.{
  ℕ, Text, ◌<◌, ◌≡◌, Option, Bool-cases, text_eq, ◌≤◌, none, some, inl, inr, length, arith, refl,
  parse_int, zero, ap,
}
use chirpstack_simulator.Table.Defs.{
  View, toggle_sort, page_size_of, total_pages, Screen, set_search, set_page_size, with_page,
}
use chirpstack_simulator.Table.Rows.{OnPage}
use chirpstack_simulator.State.{Engine, State, Application}
use chirpstack_simulator.Tabs.Networks.{
  sort_net_by, search_net, change_net_page_size, go_to_app_page, AppRow,
  apply_app_filters_and_render,
}
use chirpstack_simulator.Tabs.Networks.Rows.{apply_app_filters_and_render-OnPage}
use Prim.Native.Nat.{ℕ, suc}

toggle_sort_page :
    {A : Type 0} (key : Text) (v : View A)
    → ((toggle_sort key v).page ≡ 1) × ((toggle_sort key v).page_size ≡ v.page_size)
toggle_sort_page key v = elim (Bool-cases (text_eq v.sort.key key)) [
  | inl e ↦ simp e (refl, refl)
  | inr e ↦ simp e (refl, refl)
]

page_size_of_pos : (fallback : ℕ) (n : Text) → 0 < fallback → 0 < page_size_of fallback n
page_size_of_pos fallback n h = go (parse_int n)
  where
    go :
        (o : Option ℕ)
        → 0 < (elim o [ none ↦ fallback | some zero ↦ fallback | some (suc k) ↦ suc k ])
    go none = h
    go (some zero) = h
    go (some (suc k)) = omega arith

-- From a page size of at least 1: sorting by any column, searching for any text and changing the page
-- size to any text lead to a page of the table as it is then filtered; and if a page of the table as
-- it is filtered now is asked for, the handler does not return early, and shows a page of the table.
pub handlers-OnPage :
    (js : Engine) (s : State) (key q n : Text) (p : ℕ)
    → 0 < s.net_view.page_size
    → 1 ≤ p
    → p ≤ total_pages (length s.net_view.filtered) s.net_view.page_size
    → OnPage (sort_net_by js key s).0.net_view
      × OnPage (search_net js q s).0.net_view
      × OnPage (change_net_page_size js n s).0.net_view
      × ((next : State × Screen AppRow) × (go_to_app_page js p s ≡ some next)
          × OnPage next.0.net_view)
unfolding sort_net_by search_net change_net_page_size go_to_app_page
handlers-OnPage js s key q n p size low high =
    let toggled = toggle_sort_page key s.net_view in
    let at_page = record s { net_view = record s.net_view { page = p } } in
    let inside : with_page (length s.net_view.filtered) p s.net_view
        ≡ some (record s.net_view { page = p }) =
      ground arith in
    (
      apply_app_filters_and_render-OnPage js (record s { net_view = toggle_sort key s.net_view })
          (omega (arith, toggled.1)) (omega (arith, toggled.0)),
      apply_app_filters_and_render-OnPage js (record s { net_view = set_search q s.net_view }) size
          (omega arith),
      apply_app_filters_and_render-OnPage js (record s { net_view = set_page_size 5 n s.net_view })
          (page_size_of_pos 5 n (omega arith)) (omega arith),
      (
        apply_app_filters_and_render js at_page,
        ap
            (λ (o : Option (View Application)). elim o [
              | none ↦ none
              | some v ↦ some (apply_app_filters_and_render js (record s { net_view = v }))
            ])
            inside,
        apply_app_filters_and_render-OnPage js at_page size low,
      ),
    )
