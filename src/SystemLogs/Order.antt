-- ===== src/SystemLogs/Order.antt =====
-- The order of the records, over every sequence of changes of the database.
use mathlib.Core.List.{reverse, reverse-cons}
use chirpstack_simulator.SystemLogs.Adding.{
  Database, add_indexed_db_log, Reached, clear_indexed_db_logs, starts, then_event, purge_database,
  Event, adds, details_text, fails_to_add, purges, clears,
}
use chirpstack_simulator.Prelude.{
  List, ◌∷◌, ℕ, filter_by, ◌++◌, All, ltb, ◌≡◌, [], true, ◌≤◌, Bool-cases, refl, inl, leb, inr,
  false, arith, ◌<◌, Text, All-reverse, filter_by-reverse, All-mono, All-append, filter_by-All,
}
use chirpstack_simulator.SystemLogs.{Log, newest_first, purge_old_logs, Engine, Store, get_logs}
use chirpstack_simulator.Prelude.Sorting.{
  IsSorted, sort, insert_sorted, IsSorted-append, filter_by-IsSorted,
}
use chirpstack_simulator.State.{Engine}
use chirpstack_simulator.SystemLogs.Queries.{wanted, get_logs_filter, purge_records_from, from_time}

-- Every record has a greater id than those before it, and the last key is no smaller than any.
pub record Ordered (records : List Log) (last_key : ℕ) : Type 0 where
  pub ascending : IsSorted (λ (a b : Log). ltb a.id b.id) records
  pub bounded : All (λ (log : Log). log.id ≤ last_key) records

insert_sorted_last :
    (x : Log) (ys : List Log)
    → All (λ (y : Log). ltb x.id y.id ≡ true) ys
    → insert_sorted newest_first x ys ≡ ys ++ x ∷ []
insert_sorted_last x [] h = refl
insert_sorted_last x (y ∷ ys) h =
    let below : leb y.id x.id ≡ false = (let k = h.0 in ground arith) in
    rw (below, insert_sorted_last x ys h.1) refl

sort-reverse :
    (records : List Log)
    → IsSorted (λ (a b : Log). ltb a.id b.id) records
    → sort newest_first records ≡ reverse records
sort-reverse [] h = refl
sort-reverse (x ∷ xs) h =
    rw (sort-reverse xs h.1, reverse-cons x xs)
      (insert_sorted_last x (reverse xs) (All-reverse (λ (y : Log). ltb x.id y.id ≡ true) xs h.0))

add-Ordered :
    (records : List Log) (last_key : ℕ) (item : Log)
    → last_key < item.id
    → Ordered records last_key
    → Ordered (records ++ item ∷ []) item.id
add-Ordered records last_key item l h = record {
  ascending =
      IsSorted-append (λ (a b : Log). ltb a.id b.id) records item h.ascending
        (All-mono (λ (a : Log). a.id ≤ last_key) (λ (a : Log). ltb a.id item.id ≡ true) records
          (λ a k. ground arith) h.bounded);
  bounded =
      All-append (λ (a : Log). a.id ≤ item.id) records (item ∷ [])
        (All-mono (λ (a : Log). a.id ≤ last_key) (λ (a : Log). a.id ≤ item.id) records
          (λ a k. omega arith) h.bounded)
        (omega arith, tt);
}

purge-Ordered :
    (now last_monday last_key : ℕ) (store : Store)
    → Ordered store.records last_key
    → Ordered (purge_old_logs now last_monday store).records last_key
unfolding purge_old_logs
purge-Ordered now last_monday last_key store h =
    elim (Bool-cases (leb last_monday store.last_purge)) [
      | inl e ↦ rw e h
      | inr e ↦
          rw (e, purge_records_from last_monday store.records)
            (record {
              ascending =
                  filter_by-IsSorted (λ (a b : Log). ltb a.id b.id) (from_time last_monday)
                    store.records h.ascending;
              bounded =
                  filter_by-All (λ (a : Log). a.id ≤ last_key) (from_time last_monday) store.records
                    h.bounded;
            })
    ]

Event-Ordered :
    (db after : Database)
    → Event db after
    → Ordered db.store.records db.last_key
    → Ordered after.store.records after.last_key
unfolding add_indexed_db_log clear_indexed_db_logs purge_database
Event-Ordered db after (adds key now msg level details l) h =
    add-Ordered db.store.records db.last_key
      (record {
        id = key;
        time = now;
        message = msg;
        level = level;
        details = details_text details;
      })
      l h
Event-Ordered db after (fails_to_add now msg level details) h = h
Event-Ordered db after clears h = record { ascending = tt; bounded = tt }
Event-Ordered db after (purges now last_monday) h =
    purge-Ordered now last_monday db.last_key db.store h

Reached-Ordered : (db : Database) → Reached db → Ordered db.store.records db.last_key
Reached-Ordered db (starts last_purge) = record { ascending = tt; bounded = tt }
Reached-Ordered db (then_event r e) = Event-Ordered _ db e (Reached-Ordered _ r)

-- After every sequence of records added with rising keys, of failed additions, of purges and of
-- clearings, the log view shows the records of the chosen level that mention the search text in the
-- reverse of the order in which they were added.
pub get_logs-reverse :
    (js : Engine) (search level : Text) (db : Database)
    → Reached db
    → get_logs js search level db.store.records
      ≡ reverse (filter_by (wanted js search level) db.store.records)
get_logs-reverse js search level db r =
    rw
      (
        get_logs_filter js search level db.store.records,
        sort-reverse db.store.records (Reached-Ordered db r).ascending,
      )
      (filter_by-reverse (wanted js search level) db.store.records)
