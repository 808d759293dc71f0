-- ===== src/Intervals/Runs.antt =====
-- Every run of updateDeviceInterval gives the page back, in bounded time, and restarts the simulator
-- only after it was seen idle.
use chirpstack_simulator.Prelude.{
  List, Bool, ℕ, ◌++◌, Text, Option, false, ◌≤◌, ◌≡◌, ◌+◌, true, none, arith, [], ◌<◌, some, zero,
  refl, Bool-cases, inl, inr, ◌∙◌, if◌then◌else◌,
}
use chirpstack_simulator.Intervals.{
  update_device_interval, locked_after, poll_until_idle, is_idle, Server, Bool, after_status,
  Action, restart, Option, false, ℕ, Text, SimStatus, ◌∷◌, send, true, suc, some, lock_ui, is_live,
  unlock_ui, idle, apply_and_render, starting, running, Status, start_again, stopping, stop, failed,
}
use chirpstack_simulator.Intervals.Traces.{
  waited, has_start, locked_after-append, waited-append, has_start-append, waited-poll,
  has_start-poll,
}

is_idle_lem : (o : Option SimStatus) → is_idle o ≡ true → o ≡ some idle
unfolding is_idle
is_idle_lem none h = cc
is_idle_lem (some idle) h = refl
is_idle_lem (some starting) h = cc
is_idle_lem (some running) h = cc
is_idle_lem (some stopping) h = cc
is_idle_lem (some failed) h = cc

poll_until_idle_seen :
    (server : Server) (attempt fuel : ℕ)
    → (poll_until_idle server attempt fuel).0 ≡ true
    → (k : ℕ) × (k < attempt + fuel) × (server.polls k ≡ some idle)
unfolding poll_until_idle
poll_until_idle_seen server attempt zero h = cc
poll_until_idle_seen server attempt (suc fuel) h =
    elim (Bool-cases (is_idle (server.polls attempt))) [
      | inl e ↦ (attempt, omega arith, is_idle_lem (server.polls attempt) e)
      | inr e ↦
          let later = poll_until_idle_seen server (attempt + 1) fuel (rw e at h) in
          (later.0, omega (arith, later.1), later.2)
    ]

-- The part from the stop request on.
locked_after-restart :
    (server : Server) (sim_config : Option Text) (locked : Bool)
    → locked_after locked (restart server sim_config) ≡ false
unfolding restart locked_after
locked_after-restart server sim_config locked =
    let polled = poll_until_idle server 0 30 in
    let again = start_again polled.0 sim_config in
    let e1 = locked_after-append locked polled.1 (again ++ unlock_ui ∷ apply_and_render ∷ []) in
    let e2 =
      locked_after-append (locked_after locked polled.1) again
        (unlock_ui ∷ apply_and_render ∷ []) in
    e1 ∙ e2

waited-start_again :
    (seen : Bool) (sim_config : Option Text) → waited (start_again seen sim_config) ≤ 1000
unfolding start_again
waited-start_again false sim_config = omega arith
waited-start_again true none = omega arith
waited-start_again true (some config) = omega arith

waited-restart :
    (server : Server) (sim_config : Option Text) → waited (restart server sim_config) ≤ 16000
unfolding restart
waited-restart server sim_config =
    let polled = poll_until_idle server 0 30 in
    let again = start_again polled.0 sim_config in
    let e1 = waited-append polled.1 (again ++ unlock_ui ∷ apply_and_render ∷ []) in
    let e2 = waited-append again (unlock_ui ∷ apply_and_render ∷ []) in
    rw (e1, e2) (omega (arith, waited-poll server 0 30, waited-start_again polled.0 sim_config))

has_start-not_seen :
    (sim_config : Option Text)
    → has_start (start_again false sim_config ++ unlock_ui ∷ apply_and_render ∷ []) ≡ false
unfolding start_again
has_start-not_seen sim_config = refl

has_start-restart :
    (server : Server) (sim_config : Option Text)
    → has_start (restart server sim_config) ≡ true
    → (k : ℕ) × (k < 30) × (server.polls k ≡ some idle)
unfolding restart
has_start-restart server sim_config h =
    let polled = poll_until_idle server 0 30 in
    let e1 =
      has_start-append polled.1
        (start_again polled.0 sim_config ++ unlock_ui ∷ apply_and_render ∷ []) in
    elim (Bool-cases polled.0) [
      | inl e ↦ poll_until_idle_seen server 0 30 e
      | inr e ↦ cc (rw (e1, has_start-poll server 0 30, e, has_start-not_seen sim_config) at h)
    ]

-- A fact about every way on from the status holds, if it holds when the page is just unlocked, when the
-- stop is refused, and when the simulator is stopped.
after_status_cases :
    (P : List Action → Type 0) (server : Server) (first : Option Status)
    → P (unlock_ui ∷ apply_and_render ∷ [])
    → P (lock_ui ∷ send stop ∷ unlock_ui ∷ apply_and_render ∷ [])
    → ((config : Option Text)
        → server.stops ≡ true
        → P (lock_ui ∷ send stop ∷ restart server config))
    → P (after_status server first)
unfolding after_status
after_status_cases P server none quiet refused stopped = quiet
after_status_cases P server (some answer) quiet refused stopped =
    elim (Bool-cases (is_live answer.status)) [
      | inr e ↦ rw e quiet
      | inl e ↦ rw e (go server.stops refl)
    ]
  where
    go :
        (b : Bool)
        → server.stops ≡ b
        → P (
            lock_ui
            ∷ send stop
            ∷ (if b then restart server answer.config else unlock_ui ∷ apply_and_render ∷ []))
    go false n = refused
    go true y = stopped answer.config y

-- Whatever the server answers, the page is unlocked in the end.
pub update_device_interval-unlocked :
    (server : Server) (dev_eui interval : Text) (device_intervals : List (Text × Text))
    (locked : Bool)
    → locked_after locked (update_device_interval server dev_eui interval device_intervals).actions
      ≡ false
unfolding update_device_interval locked_after
update_device_interval-unlocked server dev_eui interval device_intervals locked =
    elim (Bool-cases server.saves) [
      | inr e ↦ simp e refl
      | inl e ↦ simp e (
          after_status_cases (λ actions. locked_after true actions ≡ false) server
            server.first_status refl refl (λ config y. locked_after-restart server config true))
    ]

-- The waits of a change come to 16 seconds at most, whatever the server answers.
pub update_device_interval-waited :
    (server : Server) (dev_eui interval : Text) (device_intervals : List (Text × Text))
    → waited (update_device_interval server dev_eui interval device_intervals).actions ≤ 16000
unfolding update_device_interval
update_device_interval-waited server dev_eui interval device_intervals =
    elim (Bool-cases server.saves) [
      | inr e ↦ simp e (omega arith)
      | inl e ↦ simp e (
          after_status_cases (λ actions. waited actions ≤ 16000) server server.first_status
            (omega arith) (omega arith) (λ config y. waited-restart server config))
    ]

-- The simulator is started again only if the new interval was saved, the stop was accepted and one of
-- the 30 polls saw the simulator idle.
pub update_device_interval-has_start :
    (server : Server) (dev_eui interval : Text) (device_intervals : List (Text × Text))
    → has_start (update_device_interval server dev_eui interval device_intervals).actions ≡ true
    → (server.saves ≡ true)
      × (server.stops ≡ true)
      × ((k : ℕ) × (k < 30) × (server.polls k ≡ some idle))
unfolding update_device_interval
update_device_interval-has_start server dev_eui interval device_intervals h =
    elim (Bool-cases server.saves) [
      | inr e ↦ cc (simp e at h)
      | inl e ↦ (e, (rest (simp e at h)).0, (rest (simp e at h)).1)
    ]
  where
    rest :
        has_start (after_status server server.first_status) ≡ true
        → (server.stops ≡ true) × ((k : ℕ) × (k < 30) × (server.polls k ≡ some idle))
    rest =
        after_status_cases
          (λ actions.
            has_start actions ≡ true
            → (server.stops ≡ true) × ((k : ℕ) × (k < 30) × (server.polls k ≡ some idle)))
          server server.first_status (λ h. cc) (λ h. cc)
          (λ config y h. (y, has_start-restart server config h))
