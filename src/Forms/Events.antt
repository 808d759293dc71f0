-- ===== src/Forms/Events.antt =====
-- What one of the three wizards brings, and the events of runs in which a request is waited for.
use chirpstack_simulator.Prelude.{Bool, ℕ, ◌≤◌, ◌≡◌, ◌<◌, [], true, false, some, ◌∷◌}
use chirpstack_simulator.Forms.{
  FormWizard, Bool, ℕ, Form, true, false, show_modal, some, hide_modal, prev_step, next_step, edit,
  answered,
}

-- What one wizard has to bring: which edits its panes allow, what holds of a pane that Next was enabled
-- on, and what a request must be.
pub record Panes (f : FormWizard) : Type 1 where
  pub Edits : ℕ → f.Inputs → f.Inputs → Bool → Type 0
  pub PaneOk : ℕ → f.Inputs → Type 0
  pub RequestOk : f.Request → Type 0
  pub valid : (k : ℕ) (i : f.Inputs) → f.pane_valid k i ≡ true → PaneOk k i
  pub before :
      (k j : ℕ) (old new : f.Inputs) (checks : Bool)
      → Edits k old new checks
      → 1 ≤ j
      → j < k
      → PaneOk j old
      → PaneOk j new
  pub unchecked : (k : ℕ) (old new : f.Inputs) → Edits k old new false → PaneOk k old → PaneOk k new
  pub summary_shut : (old new : f.Inputs) (checks : Bool) → Edits 3 old new checks → ⊥
  pub complete :
      (i : f.Inputs)
      → PaneOk 1 i
      → PaneOk 2 i
      → (request : f.Request) × (f.request_of i ≡ some request) × RequestOk request

module _ (f : FormWizard) (p : Panes f) where
  -- Previous is on the screen from the second pane on; Add opens a new form.
  pub data Step : Form f → Form f → Type 0 where
    shows : {w : Form f} → w.pending ≡ [] → Step w (show_modal f w)
    hides : {w : Form f} → Step w (hide_modal f w)
    prev : {w : Form f} → w.pending ≡ [] → 1 < w.current_step → Step w (prev_step f w)
    next : {w : Form f} → w.next_disabled ≡ false → Step w (next_step f w)
    edits :
        {w : Form f} (new : f.Inputs) (checks : Bool)
        → p.Edits w.current_step w.inputs new checks
        → Step w (edit f checks new w)
    answers :
        {w : Form f} (request : f.Request) (ok : Bool)
        → w.pending ≡ request ∷ []
        → Step w (answered f ok [] w)

  pub data Reachable : Form f → Type 0 where
    opened : (w : Form f) → w.pending ≡ [] → Reachable (show_modal f w)
    goes_on : {v w : Form f} → Reachable v → Step v w → Reachable w
