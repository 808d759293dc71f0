-- ===== src/SystemLogs/Queries.antt =====
-- What the log view shows, and what the weekly purge leaves.
use chirpstack_simulator.Prelude.{
  refl, Bool, Text, List, filter_by, ◌≡◌, All, not, arith, ◌∷◌, two_filters, text_eq, codes, truthy,
  ◌||◌, trim, ◌&&◌, Bool-cases, [], inl, ℕ, inr, true, ◌≤◌, ltb, ◌<◌, leb, false,
}
use chirpstack_simulator.Prelude.Sorting.{
  sort, IsSorted, sort-IsSorted, insert_sorted, filter_by-IsSorted,
}
use chirpstack_simulator.State.{Engine}
use chirpstack_simulator.SystemLogs.{
  get_logs, Log, newest_first, has_level, mentions, purge_old_logs, purge_records, Store,
}
use mathlib.Core.List.{Perm}
use mathlib.Core.List.Perm

-- A record is asked for.
abbrev pub wanted : Engine → Text → Text → Log → Bool
wanted js search level log =
    (not (not (text_eq level (codes "all"))) || has_level level log)
    && (not (truthy (trim search)) || mentions js (js.to_lower (trim search)) log)

-- A permutation of lists stays one when the same item is put in front and the filter is applied.
filter_by-cons-perm :
    {A : Type 0} (p : A → Bool) (x : A) (xs ys : List A)
    → Perm (filter_by p xs) (filter_by p ys)
    → Perm (filter_by p (x ∷ xs)) (filter_by p (x ∷ ys))
filter_by-cons-perm p x xs ys h = elim (Bool-cases (p x)) [
  | inl e ↦ rw e (Perm.cons x h)
  | inr e ↦ rw e h
]

filter_by-swap-perm :
    {A : Type 0} (p : A → Bool) (x y : A) (ys : List A)
    → Perm (filter_by p (y ∷ x ∷ ys)) (filter_by p (x ∷ y ∷ ys))
filter_by-swap-perm p x y ys = elim (Bool-cases (p x)) [
  | inl e ↦ elim (Bool-cases (p y)) [
    | inl f ↦ rw (e, f) (Perm.swap x y (filter_by p ys))
    | inr f ↦ rw (e, f) (Perm.refl (x ∷ filter_by p ys))
  ]
  | inr e ↦ rw e (Perm.refl (filter_by p (y ∷ ys)))
]

filter_by-insert_sorted-perm :
    {A : Type 0} (le : A → A → Bool) (p : A → Bool) (x : A) (ys : List A)
    → Perm (filter_by p (insert_sorted le x ys)) (filter_by p (x ∷ ys))
filter_by-insert_sorted-perm le p x [] = Perm.refl (filter_by p (x ∷ []))
filter_by-insert_sorted-perm le p x (y ∷ ys) =
    let moved =
      filter_by-cons-perm p y (insert_sorted le x ys) (x ∷ ys)
        (filter_by-insert_sorted-perm le p x ys) in
    elim (Bool-cases (le x y)) [
      | inl e ↦ rw e (Perm.refl (filter_by p (x ∷ y ∷ ys)))
      | inr e ↦ rw e (Perm.trans moved (filter_by-swap-perm p x y ys))
    ]

filter_by-sort-perm :
    {A : Type 0} (le : A → A → Bool) (p : A → Bool) (xs : List A)
    → Perm (filter_by p (sort le xs)) (filter_by p xs)
filter_by-sort-perm le p [] = Perm.refl []
filter_by-sort-perm le p (x ∷ xs) =
    Perm.trans (filter_by-insert_sorted-perm le p x (sort le xs))
      (filter_by-cons-perm p x (sort le xs) xs (filter_by-sort-perm le p xs))

pub get_logs_filter :
    (js : Engine) (search level : Text) (records : List Log)
    → get_logs js search level records
      ≡ filter_by (wanted js search level) (sort newest_first records)
unfolding get_logs
get_logs_filter js search level records =
    two_filters (not (text_eq level (codes "all"))) (truthy (trim search)) (has_level level)
      (mentions js (js.to_lower (trim search))) (sort newest_first records)

-- The log view shows, newest first, the records of the chosen level that mention the search text in
-- their message or their details, each as often as the store has it, and no other record.
pub get_logs-IsSorted :
    (js : Engine) (search level : Text) (records : List Log)
    → IsSorted newest_first (get_logs js search level records)
      × Perm (get_logs js search level records) (filter_by (wanted js search level) records)
get_logs-IsSorted js search level records = rw (get_logs_filter js search level records) (
  filter_by-IsSorted newest_first (wanted js search level) (sort newest_first records)
      (sort-IsSorted newest_first (λ a b h. ground arith) (λ a b c h k. ground arith) records),
  filter_by-sort-perm newest_first (wanted js search level) records,
)

-- What a purge as of a time leaves, as a filter.
abbrev pub from_time : ℕ → Log → Bool
from_time midnight log = leb midnight log.time

pub purge_records_from :
    (m : ℕ) (records : List Log) → purge_records m records ≡ filter_by (from_time m) records
unfolding purge_records
purge_records_from m [] = refl
purge_records_from m (log ∷ rest) =
    let more = purge_records_from m rest in
    elim (Bool-cases (ltb log.time m)) [
      | inl e ↦ (let n : leb m log.time ≡ false = ground arith in rw (e, n, more) refl)
      | inr e ↦ (let n : leb m log.time ≡ true = ground arith in rw (e, n, more) refl)
    ]

purge_records_recent : (m : ℕ) (logs : List Log) → All (λ log. m ≤ log.time) (purge_records m logs)
unfolding purge_records
purge_records_recent m [] = tt
purge_records_recent m (log ∷ rest) =
    let more = purge_records_recent m rest in
    elim (Bool-cases (ltb log.time m)) [ inl e ↦ simp e more | inr e ↦ simp e (ground arith, more) ]

-- After a purge on or after the Monday, a second purge before the next Monday changes nothing; and if
-- the store was last purged before the Monday, all that is left is from the Monday on.
pub purge_old_logs-twice :
    (now later last_monday : ℕ) (store : Store)
    → last_monday ≤ now
    → (purge_old_logs later last_monday (purge_old_logs now last_monday store)
        ≡ purge_old_logs now last_monday store)
      × (store.last_purge < last_monday
          → All (λ log. last_monday ≤ log.time) (purge_old_logs now last_monday store).records)
unfolding purge_old_logs
purge_old_logs-twice now later last_monday store h =
    elim (Bool-cases (leb last_monday store.last_purge)) [
      | inl e ↦ simp e (refl, λ l. absurd (ground arith))
      | inr e ↦
          let n : leb last_monday now ≡ true = ground arith in
          simp e (simp n refl, λ l. purge_records_recent last_monday store.records)
    ]
