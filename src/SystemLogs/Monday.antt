-- ===== src/SystemLogs/Monday.antt =====
-- internal/api/frontend/js/tabs/system-logs.js: getLastMondayMidnight, and the purge as of that time.
-- The calendar is the browser's: a day is given by its number from 1970-01-01 in the local calendar,
-- `get_day` is getDay, and `midnight` is getTime of the start of a day.
use chirpstack_simulator.SystemLogs.{Store, purge_old_logs, ℕ}
use chirpstack_simulator.Prelude.{
  ℕ, ◌+◌, ◌≡◌, if◌then◌else◌, ◌-◌, ◌≤◌, ◌==◌, ◌⊎◌, ◌%◌, ◌<◌, arith, inl, suc, inr, zero, refl,
  filter_by, leb, false,
}
use chirpstack_simulator.SystemLogs.Queries.{purge_old_logs-twice, from_time, purge_records_from}

-- `diff`
unfoldable pub days_since_monday : ℕ → ℕ
days_since_monday day = if day == 0 then 6 else day - 1

module _ (get_day : ℕ → ℕ) (midnight : ℕ → ℕ) where
  -- The day to which `setDate` moves the date.
  unfoldable pub last_monday : ℕ → ℕ
  last_monday today = today - days_since_monday (get_day today)

  unfoldable pub get_last_monday_midnight : ℕ → ℕ
  get_last_monday_midnight today = midnight (last_monday today)

  -- purgeOldIndexedDBLogs on the day `today` at the time `now`.
  unfoldable pub purge_of_day : ℕ → ℕ → Store → Store
  purge_of_day today now store = purge_old_logs now (get_last_monday_midnight today) store

days_since_monday_cases :
    (day : ℕ)
    → ((day ≡ 0) × (days_since_monday day ≡ 6)) ⊎ ((0 < day) × (days_since_monday day ≡ day - 1))
unfolding days_since_monday
days_since_monday_cases zero = inl (refl, refl)
days_since_monday_cases (suc d) = inr (omega arith, ground arith)

days_since_monday-mod :
    (today : ℕ)
    → 4 ≤ today
    → (days_since_monday ((today + 4) % 7) ≤ today)
      × (days_since_monday ((today + 4) % 7) < 7)
      × ((today - days_since_monday ((today + 4) % 7) + 4) % 7 ≡ 1)
days_since_monday-mod today h = elim (days_since_monday_cases ((today + 4) % 7)) [
  | inl (z, e) ↦ rw e (omega arith, omega arith, omega arith)
  | inr (p, e) ↦ rw e (omega arith, omega arith, omega arith)
]

-- Two Mondays less than a week apart are the same.
monday_same : (a b : ℕ) → (a + 4) % 7 ≡ 1 → (b + 4) % 7 ≡ 1 → a < b + 7 → b < a + 7 → a ≡ b
monday_same a b p q l u = omega arith

purge_old_logs_first :
    (now m : ℕ) (store : Store)
    → store.last_purge < m
    → (purge_old_logs now m store).records ≡ filter_by (from_time m) store.records
unfolding purge_old_logs
purge_old_logs_first now m store h =
    let n : leb m store.last_purge ≡ false = ground arith in
    rw n (purge_records_from m store.records)

module _ (get_day : ℕ → ℕ) (midnight : ℕ → ℕ) where
  last_monday_lem :
      (today : ℕ)
      → ((day : ℕ) → get_day day ≡ (day + 4) % 7)
      → 4 ≤ today
      → ((last_monday get_day midnight today + 4) % 7 ≡ 1)
        × (last_monday get_day midnight today ≤ today)
        × (today < last_monday get_day midnight today + 7)
  unfolding last_monday
  last_monday_lem today days high =
      let (least, week, monday) = days_since_monday-mod today high in
      rw (days today) (monday, omega arith, omega arith)

  -- Where getDay counts the days of the week from Sunday, 1970-01-01 was a Thursday and a later day
  -- starts later: on a day from 1970-01-05 on, the day that getLastMondayMidnight takes is a Monday,
  -- this one or one of the six days before. The first purge of that week leaves exactly the records
  -- from the start of that Monday on, and no later purge of the same week changes the database.
  pub purge_of_day-week :
      (today later now after : ℕ) (store : Store)
      → ((day : ℕ) → get_day day ≡ (day + 4) % 7)
      → ((a b : ℕ) → a ≤ b → midnight a ≤ midnight b)
      → 4 ≤ today
      → today ≤ later
      → later < last_monday get_day midnight today + 7
      → midnight today ≤ now
      → store.last_purge < get_last_monday_midnight get_day midnight today
      → let purged = purge_of_day get_day midnight today now store in
        let monday = last_monday get_day midnight today in
        (get_day monday ≡ 1)
        × (monday ≤ today)
        × (today < monday + 7)
        × (purged.records ≡ filter_by (from_time (midnight monday)) store.records)
        × (purge_of_day get_day midnight later after purged ≡ purged)
  unfolding get_last_monday_midnight purge_of_day
  purge_of_day-week today later now after store days starts high l u n p =
      let (day, low, soon) = last_monday_lem today days high in
      let (later_day, later_low, later_soon) = last_monday_lem later days (omega arith) in
      let m = last_monday get_day midnight today in
      let same : last_monday get_day midnight later ≡ m =
        monday_same (last_monday get_day midnight later) m later_day day (omega arith)
          (omega arith) in
      (
        rw (days m) day,
        low,
        soon,
        purge_old_logs_first now (midnight m) store p,
        rw same
            (purge_old_logs-twice now after (midnight m) store
              (omega (arith, starts m today low, n))).0,
      )
