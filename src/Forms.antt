-- ===== src/Forms.antt =====
-- internal/api/frontend/js/wizards: what network-wizard.js, dp-wizard.js and dev-wizard.js share. Each
-- file repeats this code over its own inputs; here the inputs, the tests of the panes and the request
-- are an interface, which the child modules fill. As in the bootstrap wizard, the server's answer to a
-- request is an event.
pub mod Events
pub mod Calm
pub mod Network
pub mod Profile
pub mod Device
pub mod Unchecked
use chirpstack_simulator.Prelude.{
  Bool, none, ℕ, if◌then◌else◌, true, false, some, not, Option, List, ◌==◌, ltb, ◌+◌, ◌∷◌, ◌-◌,
}
use Prim.Native.Nat.{ℕ}

-- One of the three wizards: what its panes hold, what `check…WizValidation` asks of a pane, and the
-- body that `submit…Wiz` sends, where `none` is its early return.
pub record FormWizard : Type 1 where
  pub Inputs : Type 0
  pub Request : Type 0
  pub cleared : Inputs
  pub pane_valid : ℕ → Inputs → Bool
  pub request_of : Inputs → Option Request

module _ (f : FormWizard) where
  pub record Form : Type 0 where
    pub current_step : ℕ
    pub inputs : f.Inputs
    pub next_disabled : Bool
    pub visible : Bool
    -- The requests that the server has not answered.
    pub pending : List f.Request

  -- `check…WizValidation`
  unfoldable pub check_validation : Form → Form
  check_validation w = record w { next_disabled = not (f.pane_valid w.current_step w.inputs) }

  -- `render…WizStep`, which ends with the check.
  unfoldable pub render_step : Form → Form
  unfolding check_validation
  render_step w = check_validation w

  unfoldable pub show_modal : Form → Form
  unfolding render_step
  show_modal w = record (render_step (record w { current_step = 1; inputs = f.cleared })) {
    visible = true;
  }

  unfoldable pub hide_modal : Form → Form
  hide_modal w = record w { visible = false }

  unfoldable pub prev_step : Form → Form
  prev_step w =
      if ltb 1 w.current_step
      then render_step (record w { current_step = w.current_step - 1 })
      else w

  -- `submit…Wiz` up to its `await`.
  unfoldable pub submit : Form → Form
  submit w = elim (f.request_of w.inputs) [
    | none ↦ w
    | some request ↦ record w { next_disabled = true; pending = request ∷ w.pending }
  ]

  unfoldable pub next_step : Form → Form
  next_step w =
      if w.current_step == 3
      then submit w
      else render_step (record w { current_step = w.current_step + 1 })

  -- `submit…Wiz` from the answer on, where the requests `others` still wait.
  unfoldable pub answered : Bool → List f.Request → Form → Form
  answered ok others w = record w {
    next_disabled = false;
    pending = others;
    visible = if ok then false else w.visible;
  }

  -- An edit of an input. `checks` says whether its listener runs the check.
  unfoldable pub edit : Bool → f.Inputs → Form → Form
  edit checks new w =
      let edited = record w { inputs = new } in if checks then check_validation edited else edited
