-- ===== src/Table/Rows.antt =====
-- The rows of a table after its filters and its sort order have been applied.
use mathlib.Core.List.{Perm}
use chirpstack_simulator.Prelude.{◌≤◌, ◌<◌, List, length, Ordering, arith}
use chirpstack_simulator.Prelude.Sorting.{IsSorted, sort-perm}
use chirpstack_simulator.Table.Defs.{View, total_pages, directed, refilter, clamp_page}
use chirpstack_simulator.Table.Order.{IsOrder, sort_directed-IsSorted}
use chirpstack_simulator.Table.Paging.{total_pages-pos}

-- The view holds exactly the wanted rows, each as often, in the order of its sort key.
pub record Shows {A : Type 0} (cmp : A → A → Ordering) (wanted : List A) (v : View A) : Type 0 where
  pub ordered : IsSorted (directed v.sort.dir cmp) v.filtered
  pub complete : Perm v.filtered wanted

-- The page number is one of the table's pages.
pub record OnPage {A : Type 0} (v : View A) : Type 0 where
  pub sized : 0 < v.page_size
  pub low : 1 ≤ v.page
  pub high : v.page ≤ total_pages (length v.filtered) v.page_size

module _ {A : Type 0} {cmp : A → A → Ordering} (ord : IsOrder cmp) (wanted : List A)
    (v : View A) where
  pub refilter-Shows : Shows cmp wanted (refilter cmp wanted v)
  refilter-Shows = record {
    ordered = sort_directed-IsSorted ord v.sort.dir wanted;
    complete = sort-perm (directed v.sort.dir cmp) wanted;
  }

  pub clamp_page-Shows : Shows cmp wanted (clamp_page (refilter cmp wanted v))
  clamp_page-Shows = record {
    ordered = sort_directed-IsSorted ord v.sort.dir wanted;
    complete = sort-perm (directed v.sort.dir cmp) wanted;
  }

pub clamp_page-OnPage :
    {A : Type 0} (v : View A) → 0 < v.page_size → 1 ≤ v.page → OnPage (clamp_page v)
clamp_page-OnPage v h k = record {
  sized = h;
  low = ground (arith, total_pages-pos (length v.filtered) v.page_size);
  high = ground arith;
}
