-- ===== src/Table.antt =====
-- The parts that all list tabs of internal/api/frontend/js/tabs share: `Defs` has the view of a
-- table, the pagination bar and the handlers that change a view, `Order` the comparators and
-- `Paging` the facts about pages.
pub mod Defs
pub mod Order
pub mod Paging
pub mod Rows
pub mod Bar
