-- ===== src/SystemLogs/Adding.antt =====
-- internal/api/frontend/js/tabs/system-logs.js: what changes the database. The key generator of the
-- object store is the browser's: its keys are arguments, and `last_key` is the greatest one it gave.
use chirpstack_simulator.Prelude.{Text, ℕ, Option, none, some, ◌++◌, ◌∷◌, [], ◌<◌}
use chirpstack_simulator.SystemLogs.{Log, Store, purge_old_logs}

pub record Database : Type 0 where
  pub store : Store
  pub last_key : ℕ

-- The argument `details`: falsy, an object, of which JSON.stringify makes the text, or another value,
-- of which toString makes it.
pub data LogDetails : Type 0 where
  falsy : LogDetails
  object value : Text → LogDetails

abbrev pub details_text : LogDetails → Option Text
details_text falsy = none
details_text (object json) = some json
details_text (value text) = some text

-- addIndexedDBLog at the time `now`. `none` is a database that cannot be opened or refuses the record,
-- and `some key` is the key that the record gets; `getAll` gives the records by ascending keys.
unfoldable pub add_indexed_db_log : Option ℕ → ℕ → Text → Text → LogDetails → Database → Database
add_indexed_db_log none now msg level details db = db
add_indexed_db_log (some key) now msg level details db =
    let item : Log = record {
      id = key;
      time = now;
      message = msg;
      level = level;
      details = details_text details;
    } in
    record { store = record db.store { records = db.store.records ++ item ∷ [] }; last_key = key }

-- clearIndexedDBLogs. The key generator goes on where it was.
unfoldable pub clear_indexed_db_logs : Database → Database
clear_indexed_db_logs db = record db { store = record db.store { records = [] } }

-- purgeOldIndexedDBLogs
unfoldable pub purge_database : ℕ → ℕ → Database → Database
purge_database now last_monday db = record db { store = purge_old_logs now last_monday db.store }

pub data Event : Database → Database → Type 0 where
  adds :
      {db : Database} (key now : ℕ) (msg level : Text) (details : LogDetails)
      → db.last_key < key
      → Event db (add_indexed_db_log (some key) now msg level details db)
  fails_to_add :
      {db : Database} (now : ℕ) (msg level : Text) (details : LogDetails)
      → Event db (add_indexed_db_log none now msg level details db)
  clears : {db : Database} → Event db (clear_indexed_db_logs db)
  purges : {db : Database} (now last_monday : ℕ) → Event db (purge_database now last_monday db)

pub data Reached : Database → Type 0 where
  starts :
      (last_purge : ℕ)
      → Reached (record { store = record { records = []; last_purge = last_purge }; last_key = 0 })
  then_event : {db after : Database} → Reached db → Event db after → Reached after
