-- ===== src/Dashboard/Charts.antt =====
-- The chart's history keeps its length, an uptime is read as it is shown, and what a poll logs.
use chirpstack_simulator.Prelude.{
  ℕ, ◌≡◌, Text, ◌≤◌, List, true, Option, ◌<◌, length, some, ◌+◌, ◌*◌, arith, length-drop,
  if◌then◌else◌, none, text_eq, ◌++◌, ◌∷◌, codes, [], Bool-cases, length-append, text_or, inl, ltb,
  ◌∙◌, inr, ap, ◌||◌, zero, length-replicate, refl, ◌&&◌, truthy, false, Bool,
}
use chirpstack_simulator.Dashboard.{
  Uptime, update_chart, push_point, Dashboard, poll_status, init_chart, format_uptime,
  update_history, log_status, ℕ, Text, List, in_seconds, true, set_status_badge, StatusData, Option,
  length, in_minutes, some, Metrics, in_hours, text_eq, codes, [], simulation_error,
  start_simulation, History, labels_down, text_or, suc, not, ltb, Answer, delta, refused, false,
  truthy, Bool, accepted,
}

-- A chart on the page has one point of each series for each of its places.
abbrev pub HistoryOk : Dashboard → Type 0
HistoryOk d =
    d.metrics_chart ≡ true
    → (length d.chart_data_history.labels ≡ d.max_history_points)
      × (length d.chart_data_history.uplinks ≡ d.max_history_points)
      × (length d.chart_data_history.join_requests ≡ d.max_history_points)
      × (length d.chart_data_history.join_accepts ≡ d.max_history_points)

-- The number of seconds of an uptime, as far as it is shown.
abbrev pub shown_seconds : Uptime → ℕ
shown_seconds (in_seconds s) = s
shown_seconds (in_minutes m s) = m * 60 + s
shown_seconds (in_hours h m) = (h * 60 + m) * 60

-- An uptime is shown exactly below an hour, and rounded down to a minute from there on.
pub format_uptime_lem :
    (seconds : ℕ)
    → (shown_seconds (format_uptime seconds) ≤ seconds)
      × (seconds < shown_seconds (format_uptime seconds) + 60)
      × (seconds < 3600 → shown_seconds (format_uptime seconds) ≡ seconds)
unfolding format_uptime
format_uptime_lem seconds = (ground arith, ground arith, λ h. ground arith)

length-push_point :
    {A : Type 0} (n : ℕ) (xs : List A) (x : A) → length xs ≡ n → length (push_point true xs x) ≡ n
unfolding push_point
length-push_point n xs x h = omega (arith, length-drop 1 (xs ++ x ∷ []), length-append xs (x ∷ []))

length-labels_down : (label_ago : ℕ → Text) (n : ℕ) → length (labels_down label_ago n) ≡ n
unfolding labels_down
length-labels_down label_ago zero = refl
length-labels_down label_ago (suc i) = ap suc (length-labels_down label_ago i)

init_chart-HistoryOk :
    (label_ago : ℕ → Text) (d : Dashboard) → HistoryOk d → HistoryOk (init_chart label_ago d)
unfolding init_chart
init_chart-HistoryOk label_ago d ok = elim (Bool-cases (not d.has_canvas || d.metrics_chart)) [
  | inl e ↦ simp e ok
  | inr e ↦
      let n = d.max_history_points in
      simp e (λ h. (
        length-labels_down label_ago n,
        length-replicate n 0,
        length-replicate n 0,
        length-replicate n 0,
      ))
]

update_history_lengths :
    (n : ℕ) (time_str : Text) (previous : Option Metrics) (current : Metrics) (history : History)
    → length history.labels ≡ n
    → length history.uplinks ≡ n
    → length history.join_requests ≡ n
    → length history.join_accepts ≡ n
    → let new = update_history n time_str previous current history in
      (length new.labels ≡ n)
      × (length new.uplinks ≡ n)
      × (length new.join_requests ≡ n)
      × (length new.join_accepts ≡ n)
unfolding update_history
update_history_lengths n time_str previous current history l u r a =
    let full : ltb n (length (history.labels ++ time_str ∷ [])) ≡ true =
      ground (arith, length-append history.labels (time_str ∷ []), l) in
    simp full (
      length-push_point n history.labels time_str l,
      length-push_point n history.uplinks (delta (λ m. m.device_uplink_count) previous current) u,
      length-push_point n history.join_requests
          (delta (λ m. m.device_join_request_count) previous current) r,
      length-push_point n history.join_accepts
          (delta (λ m. m.device_join_accept_count) previous current) a,
    )

update_chart-HistoryOk :
    (label_ago : ℕ → Text) (m : Option Metrics) (d : Dashboard)
    → HistoryOk d
    → HistoryOk (update_chart label_ago m d)
unfolding update_chart
update_chart-HistoryOk label_ago none d ok = ok
update_chart-HistoryOk label_ago (some current) d ok =
    let ready = init_chart label_ago d in
    let fine = init_chart-HistoryOk label_ago d ok in
    elim (Bool-cases ready.metrics_chart) [
      | inl e ↦
          let l = fine e in
          simp e (λ h.
            update_history_lengths ready.max_history_points (label_ago 0) ready.prev_metrics current
              ready.chart_data_history l.0 l.1 l.2 l.3)
      | inr e ↦ simp e (λ h. cc)
    ]

start_simulation-HistoryOk :
    (tenant_id : Text) (answer : Answer) (d : Dashboard)
    → HistoryOk d
    → HistoryOk (start_simulation tenant_id answer d)
unfolding start_simulation
start_simulation-HistoryOk tenant_id (refused message) d ok =
    elim (Bool-cases (not (truthy d.active_org_id) || not (truthy tenant_id))) [
      | inl e ↦ simp e ok
      | inr e ↦ simp e ok
    ]
start_simulation-HistoryOk tenant_id accepted d ok =
    elim (Bool-cases (not (truthy d.active_org_id) || not (truthy tenant_id))) [
      | inl e ↦ simp e ok
      | inr e ↦ simp e (λ h.
          let l = ok h in
          let zeros = λ (xs : List ℕ). length-replicate {A = ℕ} (length xs) 0 in
          let history = d.chart_data_history in
          simp h (
            l.0,
            zeros history.uplinks ∙ l.1,
            zeros history.join_requests ∙ l.2,
            zeros history.join_accepts ∙ l.3,
          ))
    ]

-- If a chart on the page has one point of each series for each of its places, then so it has after any
-- poll, and after any start of a simulation.
pub poll_status-HistoryOk :
    (label_ago : ℕ → Text) (polled : Option StatusData) (tenant_id : Text) (answer : Answer)
    (d : Dashboard)
    → HistoryOk d
    → HistoryOk (poll_status label_ago polled d) × HistoryOk (start_simulation tenant_id answer d)
unfolding poll_status log_status set_status_badge
poll_status-HistoryOk label_ago polled tenant_id answer d ok =
    (polls polled, start_simulation-HistoryOk tenant_id answer d ok)
  where
    polls : (polled : Option StatusData) → HistoryOk (poll_status label_ago polled d)
    polls none = ok
    polls (some data_of) =
        update_chart-HistoryOk label_ago data_of.metrics
          (log_status data_of.status (set_status_badge (text_or data_of.status (codes "idle")) d))
          ok

init_chart-log : (label_ago : ℕ → Text) (d : Dashboard) → (init_chart label_ago d).log ≡ d.log
unfolding init_chart
init_chart-log label_ago d = elim (Bool-cases (not d.has_canvas || d.metrics_chart)) [
  | inl e ↦ simp e refl
  | inr e ↦ simp e refl
]

update_chart-log :
    (label_ago : ℕ → Text) (m : Option Metrics) (d : Dashboard)
    → (update_chart label_ago m d).log ≡ d.log
unfolding update_chart
update_chart-log label_ago none d = refl
update_chart-log label_ago (some current) d =
    elim (Bool-cases (init_chart label_ago d).metrics_chart) [
      | inl e ↦ simp e (init_chart-log label_ago d)
      | inr e ↦ simp e (init_chart-log label_ago d)
    ]

-- A status that is idle is idle after the default, too.
stays_idle :
    (status : Text)
    → (text_eq status (codes "idle")
        && not (text_eq (text_or status (codes "idle")) (codes "idle")))
      ≡ false
stays_idle [] = refl
stays_idle (x ∷ xs) = and_not (text_eq (x ∷ xs) (codes "idle"))
  where
    and_not : (b : Bool) → (b && not b) ≡ false
    and_not true = refl
    and_not false = refl

append_nil : {A : Type 0} (xs : List A) → xs ++ [] ≡ xs
append_nil [] = refl
append_nil (x ∷ xs) = ap (x ∷◌) (append_nil xs)

-- No poll ever logs that the simulation finished: the poll stores the new status before it compares it
-- with the old one. All that a poll adds to the log is the entry of an error.
pub poll_status-log :
    (label_ago : ℕ → Text) (answer : StatusData) (d : Dashboard)
    → (poll_status label_ago (some answer) d).log
      ≡ (if text_eq answer.status (codes "error") then d.log ++ simulation_error ∷ [] else d.log)
unfolding poll_status log_status set_status_badge
poll_status-log label_ago answer d =
    let status = text_or answer.status (codes "idle") in
    let shown = log_status answer.status (set_status_badge status d) in
    let same = update_chart-log label_ago answer.metrics shown in
    elim (Bool-cases (text_eq answer.status (codes "error"))) [
      | inl e ↦ rw (same, stays_idle answer.status, e, append_nil d.log) refl
      | inr e ↦ rw (same, stays_idle answer.status, e, append_nil d.log, append_nil d.log) refl
    ]
