-- ===== src/Intervals/Traces.antt =====
-- The actions of updateDeviceInterval, piece by piece, and those of its polls.
use chirpstack_simulator.Prelude.{
  List, Bool, ℕ, ◌++◌, false, ◌≤◌, ◌≡◌, ◌+◌, true, ◌||◌, ◌*◌, arith, [], zero, refl, Bool-cases,
  inl, inr,
}
use chirpstack_simulator.Intervals.{
  locked_after, poll_until_idle, is_idle, Server, Bool, Action, false, ℕ, ◌∷◌, wait, send, true,
  suc, start, save_interval, lock_ui, unlock_ui, apply_and_render, get_status, get_intervals, stop,
}

-- The milliseconds that the actions wait.
abbrev pub waited : List Action → ℕ
waited [] = 0
waited (wait ms ∷ rest) = ms + waited rest
waited (action ∷ rest) = waited rest

-- The actions ask the server to start the simulator.
abbrev pub has_start : List Action → Bool
has_start [] = false
has_start (send (start config) ∷ rest) = true
has_start (action ∷ rest) = has_start rest

-- What a list of actions comes to, piece by piece.
pub locked_after-append :
    (locked : Bool) (xs ys : List Action)
    → locked_after locked (xs ++ ys) ≡ locked_after (locked_after locked xs) ys
unfolding locked_after
locked_after-append locked [] ys = refl
locked_after-append locked (lock_ui ∷ xs) ys = locked_after-append true xs ys
locked_after-append locked (unlock_ui ∷ xs) ys = locked_after-append false xs ys
locked_after-append locked (apply_and_render ∷ xs) ys = locked_after-append locked xs ys
locked_after-append locked (send request ∷ xs) ys = locked_after-append locked xs ys
locked_after-append locked (wait ms ∷ xs) ys = locked_after-append locked xs ys

pub waited-append : (xs ys : List Action) → waited (xs ++ ys) ≡ waited xs + waited ys
waited-append [] ys = omega arith
waited-append (lock_ui ∷ xs) ys = waited-append xs ys
waited-append (unlock_ui ∷ xs) ys = waited-append xs ys
waited-append (apply_and_render ∷ xs) ys = waited-append xs ys
waited-append (send request ∷ xs) ys = waited-append xs ys
waited-append (wait ms ∷ xs) ys = omega (arith, waited-append xs ys)

pub has_start-append : (xs ys : List Action) → has_start (xs ++ ys) ≡ (has_start xs || has_start ys)
has_start-append [] ys = refl
has_start-append (lock_ui ∷ xs) ys = has_start-append xs ys
has_start-append (unlock_ui ∷ xs) ys = has_start-append xs ys
has_start-append (apply_and_render ∷ xs) ys = has_start-append xs ys
has_start-append (send (save_interval d i) ∷ xs) ys = has_start-append xs ys
has_start-append (send get_status ∷ xs) ys = has_start-append xs ys
has_start-append (send get_intervals ∷ xs) ys = has_start-append xs ys
has_start-append (send stop ∷ xs) ys = has_start-append xs ys
has_start-append (send (start config) ∷ xs) ys = refl
has_start-append (wait ms ∷ xs) ys = has_start-append xs ys

-- The polls.
pub waited-poll :
    (server : Server) (attempt fuel : ℕ)
    → waited (poll_until_idle server attempt fuel).1 ≤ 500 * fuel
unfolding poll_until_idle
waited-poll server attempt zero = omega arith
waited-poll server attempt (suc fuel) = elim (Bool-cases (is_idle (server.polls attempt))) [
  | inl e ↦ rw e (omega arith)
  | inr e ↦ rw e (omega (arith, waited-poll server (attempt + 1) fuel))
]

pub has_start-poll :
    (server : Server) (attempt fuel : ℕ) → has_start (poll_until_idle server attempt fuel).1 ≡ false
unfolding poll_until_idle
has_start-poll server attempt zero = refl
has_start-poll server attempt (suc fuel) = elim (Bool-cases (is_idle (server.polls attempt))) [
  | inl e ↦ rw e refl
  | inr e ↦ rw e (has_start-poll server (attempt + 1) fuel)
]
