-- ===== src/Intervals.antt =====
-- internal/api/frontend/js/tabs/device-list.js, updateDeviceInterval: a new interval is saved, and a
-- running simulator is stopped, watched until it is idle and started again, behind a screen that
-- locks the page. The server is a parameter: what it answers to each request, in the order of the
-- requests, is an argument, and so is what it answers to each poll.
pub mod Traces
pub mod Runs
use chirpstack_simulator.Prelude.{
  ℕ, List, Option, Bool, Text, ◌∷◌, true, some, false, ◌++◌, if◌then◌else◌, [], text_eq, ◌+◌, none,
  zero,
}
use Prim.Native.Nat.{ℕ, suc}

pub data SimStatus : Type 0 where
  idle starting running stopping failed : SimStatus

pub data Request : Type 0 where
  save_interval : Text → Text → Request
  get_status get_intervals stop : Request
  start : Text → Request

-- What the page does: it locks, unlocks, sends a request, waits for so many milliseconds, redraws the
-- table of the devices.
pub data Action : Type 0 where
  lock_ui unlock_ui apply_and_render : Action
  send : Request → Action
  wait : ℕ → Action

-- `statusRes.data`: the status, and the configuration that the simulator runs on, if it has one.
pub record Status : Type 0 where
  pub status : SimStatus
  pub config : Option Text

-- The answers: `none` and `false` are responses that are not ok.
pub record Server : Type 0 where
  pub saves : Bool
  pub first_status : Option Status
  pub stops : Bool
  pub polls : ℕ → Option SimStatus

pub record Outcome : Type 0 where
  pub device_intervals : List (Text × Text)
  pub actions : List Action

unfoldable pub is_idle : Option SimStatus → Bool
is_idle (some idle) = true
is_idle _ = false

unfoldable pub is_live : SimStatus → Bool
is_live running = true
is_live starting = true
is_live _ = false

-- The loop of at most `fuel` polls from `attempt` on: whether the simulator was seen idle, and what
-- was done.
unfoldable pub poll_until_idle : Server → ℕ → ℕ → Bool × List Action
unfolding is_idle
poll_until_idle server attempt zero = (false, [])
poll_until_idle server attempt (suc fuel) =
    let rest = poll_until_idle server (attempt + 1) fuel in
    if is_idle (server.polls attempt)
    then (true, wait 500 ∷ send get_status ∷ [])
    else (rest.0, wait 500 ∷ send get_status ∷ rest.1)

-- `state.deviceIntervals[devEui] = interval`
unfoldable pub put_interval : Text → Text → List (Text × Text) → List (Text × Text)
put_interval dev_eui interval [] = (dev_eui, interval) ∷ []
put_interval dev_eui interval (entry ∷ rest) =
    let others = put_interval dev_eui interval rest in
    if text_eq entry.0 dev_eui then (dev_eui, interval) ∷ rest else entry ∷ others

-- The start, when the simulator was seen idle and there is a configuration to start it with.
unfoldable pub start_again : Bool → Option Text → List Action
start_again false sim_config = []
start_again true none = wait 1000 ∷ lock_ui ∷ []
start_again true (some config) = wait 1000 ∷ lock_ui ∷ send (start config) ∷ []

-- The polls, and what is done after them.
unfoldable pub restart : Server → Option Text → List Action
restart server sim_config =
    let polled = poll_until_idle server 0 30 in
    polled.1 ++ (start_again polled.0 sim_config ++ unlock_ui ∷ apply_and_render ∷ [])

unfoldable pub after_status : Server → Option Status → List Action
unfolding is_live
after_status server none = unlock_ui ∷ apply_and_render ∷ []
after_status server (some answer) =
    if is_live answer.status
    then lock_ui
      ∷ send stop
      ∷ (if server.stops then restart server answer.config else unlock_ui ∷ apply_and_render ∷ [])
    else unlock_ui ∷ apply_and_render ∷ []

unfoldable pub update_device_interval : Server → Text → Text → List (Text × Text) → Outcome
unfolding after_status
update_device_interval server dev_eui interval device_intervals =
    if server.saves
    then record {
      device_intervals = put_interval dev_eui interval device_intervals;
      actions =
          lock_ui
          ∷ send (save_interval dev_eui interval)
          ∷ lock_ui
          ∷ send get_status
          ∷ after_status server server.first_status;
    }
    else record {
      device_intervals = device_intervals;
      actions =
          lock_ui ∷ send (save_interval dev_eui interval) ∷ unlock_ui ∷ send get_intervals ∷ [];
    }

-- The page is locked after these actions, if it was before.
pub locked_after : Bool → List Action → Bool
locked_after locked [] = locked
locked_after locked (lock_ui ∷ rest) = locked_after true rest
locked_after locked (unlock_ui ∷ rest) = locked_after false rest
locked_after locked (action ∷ rest) = locked_after locked rest
