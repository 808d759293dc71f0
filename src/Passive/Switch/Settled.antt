-- ===== src/Passive/Switch/Settled.antt =====
-- The switch of the passive mode and what it switches, while its clicks wait for the answers.
use chirpstack_simulator.Passive.Switch.{Switch, ModeRequest, flip, switched, answer_first}
use chirpstack_simulator.Passive.Locks.Kept.{Agrees}
use chirpstack_simulator.Prelude.Int.{ℤ}
use chirpstack_simulator.Prelude.{
  Bool, Text, ◌≡◌, [], not, true, Option, ◌⊎◌, false, ◌∷◌, refl, ap, ℕ, ◌||◌, ltb,
}

-- The switch shows the mode, or one request that would change the mode is under way.
abbrev pub OneRequest : Switch → Type 0
OneRequest s =
    ((s.pending ≡ []) × (s.ui.toggle_checked ≡ s.ui.passive_mode))
    ⊎ ((request : ModeRequest) × (s.pending ≡ request ∷ [])
        × (request.enabled ≡ not s.ui.passive_mode)
        × (s.ui.toggle_checked ≡ not s.ui.passive_mode))

-- In the passive mode the stream is open or a reconnect is scheduled; outside it the stream is open
-- exactly if a reconnect has come due since the mode was left.
abbrev pub StreamOk : Bool → Bool → Bool → ℕ → Type 0
StreamOk true stray sse_source timers = (sse_source || ltb 0 timers) ≡ true
StreamOk false stray sse_source timers = sse_source ≡ stray

pub record Settled (hint : Text) (stray : Bool) (s : Switch) : Type 0 where
  pub page : Agrees hint (record s.ui { toggle_checked = s.ui.passive_mode })
  pub stream : StreamOk s.ui.passive_mode stray s.sse_source s.timers
  pub switch : OneRequest s

not-not : (b : Bool) → not (not b) ≡ b
not-not true = refl
not-not false = refl

-- Where no request of the switch is under way and it is clicked twice before the first answer: if both
-- requests are refused, the mode stays and the switch shows the opposite of what it showed.
pub flip-flip_refused :
    (hint : Text) (minutes : Option ℤ) (s : Switch)
    → s.pending ≡ []
    → let twice = flip minutes (flip minutes s) in
      let after = answer_first hint false (answer_first hint false twice) in
      (after.ui.toggle_checked ≡ not s.ui.toggle_checked)
      × (after.ui.passive_mode ≡ s.ui.passive_mode)
      × (after.pending ≡ [])
unfolding flip answer_first switched
flip-flip_refused hint minutes s idle = rw idle (ap not (not-not s.ui.toggle_checked), refl, refl)
