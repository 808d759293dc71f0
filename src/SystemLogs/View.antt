-- ===== src/SystemLogs/View.antt =====
-- internal/api/frontend/js/tabs/system-logs.js: renderSystemLogs with the clicks on its entries, the
-- inner tabs and exportLogs. The clock time of an entry is written from `time`, its timestamp by `iso`.
use chirpstack_simulator.SystemLogs.{Log, get_logs, Bool, Engine, Text, Option, ℕ, false, List}
use chirpstack_simulator.Prelude.{
  none, ◌≡◌, text_or, false, List, Bool, Option, ℕ, Text, some, length, All, ◌∷◌, [], codes, map,
  suc, ap, if◌then◌else◌, not, ◌++◌, ◌==◌, ◌∙◌, zero, truthy, refl, true, ◌&&◌,
}
use chirpstack_simulator.State.{Engine}

-- An element `.log-entry`: `details` is the text of its `.log-details`, where it has one, `is_open`
-- its class `open`, and `details_shown` whether the display of the details is "block". The texts are
-- those that escapeHtml is given.
pub record LogEntry : Type 0 where
  pub level : Text
  pub time : ℕ
  pub message : Text
  pub details : Option Text
  pub is_open : Bool
  pub details_shown : Bool

-- `if (log.details)`
abbrev pub details_of : Option Text → Option Text
details_of none = none
details_of (some details) = if truthy details then some details else none

unfoldable pub render_entry : Log → LogEntry
render_entry log = record {
  level = text_or log.level (codes "info");
  time = log.time;
  message = log.message;
  details = details_of log.details;
  is_open = false;
  details_shown = false;
}

pub record LogView : Type 0 where
  pub no_logs_found : Bool
  pub container : List LogEntry

-- renderSystemLogs, from the records that the database gives.
unfoldable pub render_system_logs : Engine → Text → Text → List Log → LogView
render_system_logs js search level records =
    let logs = get_logs js search level records in
    record { no_logs_found = length logs == 0; container = map render_entry logs }

-- The listener of an entry: only one with details has it.
abbrev pub toggle_details : Option Text → LogEntry → LogEntry
toggle_details none entry = entry
toggle_details (some details) entry =
    let is_open = not entry.is_open in record entry { is_open = is_open; details_shown = is_open }

unfoldable pub toggle_entry : LogEntry → LogEntry
toggle_entry entry = toggle_details entry.details entry

pub toggle_at : ℕ → List LogEntry → List LogEntry
toggle_at i [] = []
toggle_at zero (entry ∷ entries) = toggle_entry entry ∷ entries
toggle_at (suc i) (entry ∷ entries) = entry ∷ toggle_at i entries

unfoldable pub click_entry : ℕ → LogView → LogView
click_entry i view = record view { container = toggle_at i view.container }

-- A line of exportLogs.
unfoldable pub export_line : Engine → (ℕ → Text) → Log → Text
export_line js iso log =
    let line =
      codes "["
      ++ iso log.time
      ++ codes "] ["
      ++ js.to_upper log.level
      ++ codes "] "
      ++ log.message in
    elim (details_of log.details) [
      | none ↦ line
      | some details ↦ line ++ (b'\n' ∷ codes "Details:") ++ (b'\n' ∷ details) ++ b'\n' ∷ []
    ]

-- `lines.join("\n")`
unfoldable pub join_lines : List Text → Text
join_lines [] = []
join_lines (x ∷ []) = x
join_lines (x ∷ y ∷ xs) = x ++ (b'\n' ∷ join_lines (y ∷ xs))

-- exportLogs: the content of the file, or `none` where there is nothing to export.
unfoldable pub export_logs : Engine → (ℕ → Text) → List Log → Option Text
export_logs js iso records =
    let logs = get_logs js [] (codes "all") records in
    if length logs == 0 then none else some (join_lines (map (export_line js iso) logs))

-- The views that clicks can make of the logs of a rendering.
pub data Reached (logs : List Log) : LogView → Type 0 where
  renders :
      (js : Engine) (search level : Text) (records : List Log)
      → get_logs js search level records ≡ logs
      → Reached logs (render_system_logs js search level records)
  clicks : {view : LogView} (i : ℕ) → Reached logs view → Reached logs (click_entry i view)

abbrev pub folded : LogEntry → LogEntry
folded entry = record entry { is_open = false; details_shown = false }

abbrev pub has_details : Option Text → Bool
has_details none = false
has_details (some details) = true

-- The details of an entry are shown exactly while it is open, and without details it never is.
pub record Unfolds (entry : LogEntry) : Type 0 where
  pub shown : entry.details_shown ≡ entry.is_open
  pub bare : (entry.is_open && not (has_details entry.details)) ≡ false

and_false : (b : Bool) → (b && false) ≡ false
and_false true = refl
and_false false = refl

folded-toggle_details :
    (details : Option Text) (entry : LogEntry)
    → entry.details ≡ details
    → Unfolds entry
    → (folded (toggle_details details entry) ≡ folded entry)
      × Unfolds (toggle_details details entry)
folded-toggle_details none entry e h = (refl, h)
folded-toggle_details (some details) entry e h =
    (refl, record { shown = refl; bare = rw e (and_false (not entry.is_open)) })

toggle_at-Unfolds :
    (i : ℕ) (entries : List LogEntry)
    → All Unfolds entries
    → (map folded (toggle_at i entries) ≡ map folded entries) × All Unfolds (toggle_at i entries)
unfolding toggle_at toggle_entry
toggle_at-Unfolds i [] h = (refl, tt)
toggle_at-Unfolds zero (entry ∷ entries) h =
    let once = folded-toggle_details entry.details entry refl h.0 in
    (ap (λ e. e ∷ map folded entries) once.0, (once.1, h.1))
toggle_at-Unfolds (suc i) (entry ∷ entries) h =
    let rest = toggle_at-Unfolds i entries h.1 in
    (ap (λ es. folded entry ∷ es) rest.0, (h.0, rest.1))

render_entry-Unfolds :
    (logs : List Log)
    → (map folded (map render_entry logs) ≡ map render_entry logs)
      × All Unfolds (map render_entry logs)
unfolding render_entry
render_entry-Unfolds [] = (refl, tt)
render_entry-Unfolds (log ∷ logs) =
    let rest = render_entry-Unfolds logs in
    (ap (λ es. render_entry log ∷ es) rest.0, (record { shown = refl; bare = refl }, rest.1))

-- However the entries are clicked after a rendering, the container keeps one entry for each log, with
-- its content and in the same order; the details of an entry are shown exactly while it is open, and
-- an entry without details is never open.
pub Reached-Unfolds :
    (logs : List Log) (view : LogView)
    → Reached logs view
    → (map folded view.container ≡ map render_entry logs) × All Unfolds view.container
unfolding render_system_logs click_entry
Reached-Unfolds logs view (renders js search level records e) = rw e (render_entry-Unfolds logs)
Reached-Unfolds logs view (clicks i r) =
    let before = Reached-Unfolds logs _ r in
    let after = toggle_at-Unfolds i _ before.1 in (after.0 ∙ before.0, after.1)
