-- ===== src/SystemLogs.antt =====
-- internal/api/frontend/js/tabs/system-logs.js: the log of the page that the browser's database keeps.
-- The database is not modelled: its records, in the order in which it gives them, are an argument.
pub mod Queries
pub mod Adding
pub mod Order
pub mod Monday
pub mod View
pub mod Export
use chirpstack_simulator.Prelude.{
  Text, ℕ, List, Bool, leb, Option, text_eq, if◌then◌else◌, truthy, ◌∷◌, ltb, not, ◌&&◌, [], codes,
  includes, filter_by, ◌||◌, none, trim, false, some,
}
use chirpstack_simulator.Prelude.Sorting.{sort}
use chirpstack_simulator.State.{Engine}
use Prim.Native.Nat.{ℕ}

-- A record of the store `system_logs`. Its time is `new Date(timestamp).getTime()`.
pub record Log : Type 0 where
  pub id : ℕ
  pub time : ℕ
  pub message : Text
  pub level : Text
  pub details : Option Text

-- `logs.sort((a, b) => b.id - a.id)`: `a` may stand before `b`.
abbrev pub newest_first : Log → Log → Bool
newest_first a b = leb b.id a.id

-- `log.level === level`, where "all" is every level.
unfoldable pub has_level : Text → Log → Bool
has_level level log = text_eq log.level level

-- `(log.message && …) || (log.details && …)`
unfoldable pub mentions : Engine → Text → Log → Bool
mentions js q log =
    (truthy log.message && includes q (js.to_lower log.message)) || (elim log.details [
      | none ↦ false
      | some details ↦ truthy details && includes q (js.to_lower details)
    ])

-- getIndexedDBLogs, from the records that `getAll` gives.
unfoldable pub get_logs : Engine → Text → Text → List Log → List Log
get_logs js search level records =
    let logs = sort newest_first records in
    let of_level =
      if not (text_eq level (codes "all")) then filter_by (has_level level) logs else logs in
    if truthy (trim search)
    then filter_by (mentions js (js.to_lower (trim search))) of_level
    else of_level

-- What purgeOldIndexedDBLogs works on: the records and `sim_logs_last_purge`.
pub record Store : Type 0 where
  pub records : List Log
  pub last_purge : ℕ

-- The cursor over the records: the ones from before `last_monday` are deleted.
pub purge_records : ℕ → List Log → List Log
purge_records last_monday [] = []
purge_records last_monday (log ∷ rest) =
    let kept = purge_records last_monday rest in
    if ltb log.time last_monday then kept else log ∷ kept

-- purgeOldIndexedDBLogs at the time `now`, where `last_monday` is getLastMondayMidnight.
pub purge_old_logs : ℕ → ℕ → Store → Store
purge_old_logs now last_monday store =
    if leb last_monday store.last_purge
    then store
    else record { records = purge_records last_monday store.records; last_purge = now }
