-- ===== src/Forms/Calm.antt =====
-- Runs in which the wizard is left alone while a request waits for its answer.
use chirpstack_simulator.Prelude.{
  Bool, ℕ, ◌≤◌, ◌≡◌, ◌<◌, [], true, false, some, ◌≢◌, refl, length, All, ◌∷◌, List, arith, ltb, ◌+◌,
  Bool-cases, ◌-◌, ◌==◌, inl, inr, ap, Option, none,
}
use chirpstack_simulator.Forms.{
  FormWizard, check_validation, Bool, ℕ, Form, not, true, false, show_modal, some, hide_modal,
  prev_step, next_step, edit, render_step, submit, List, answered, ltb, Option,
}
use chirpstack_simulator.Forms.Events.{
  Panes, Step, Reachable, shows, opened, goes_on, prev, next, edits, answers, hides,
}

module _ (f : FormWizard) (p : Panes f) where
  -- What holds in every state of such a run.
  record Ok (w : Form f) : Type 0 where
    passed : (j : ℕ) → 1 ≤ j → j < w.current_step → p.PaneOk j w.inputs
    enabled : w.next_disabled ≡ false → w.current_step ≢ 3 → p.PaneOk w.current_step w.inputs
    step_low : 1 ≤ w.current_step
    step_high : w.current_step ≤ 3
    waits : 0 < length w.pending → (w.current_step ≡ 3) × (w.next_disabled ≡ true)
    sent : All p.RequestOk w.pending

  nothing_waits : (xs : List f.Request) → xs ≡ [] → 0 < length xs → ⊥
  nothing_waits [] e h = omega arith
  nothing_waits (x ∷ xs) e h = cc

  not_flip : (b : Bool) → not b ≡ false → b ≡ true
  not_flip true h = refl
  not_flip false h = cc

  Ok-check :
      (w : Form f)
      → ((j : ℕ) → 1 ≤ j → j < w.current_step → p.PaneOk j w.inputs)
      → 1 ≤ w.current_step
      → w.current_step ≤ 3
      → w.pending ≡ []
      → Ok (check_validation f w)
  unfolding check_validation
  Ok-check w passed lo hi e = record {
    passed = passed;
    enabled =
        λ h n. p.valid w.current_step w.inputs (not_flip (f.pane_valid w.current_step w.inputs) h);
    step_low = lo;
    step_high = hi;
    waits = λ h. absurd (nothing_waits w.pending e h);
    sent = rw e tt;
  }

  Ok-show : (w : Form f) → w.pending ≡ [] → Ok (show_modal f w)
  unfolding show_modal render_step
  Ok-show w e =
      let ok =
        Ok-check (record w { current_step = 1; inputs = f.cleared })
          (λ j lo hi. absurd (omega arith)) (omega arith) (omega arith) e in
      record {
        passed = ok.passed;
        enabled = ok.enabled;
        step_low = ok.step_low;
        step_high = ok.step_high;
        waits = ok.waits;
        sent = ok.sent;
      }

  Ok-hide : (w : Form f) → Ok w → Ok (hide_modal f w)
  unfolding hide_modal
  Ok-hide w ok = record {
    passed = ok.passed;
    enabled = ok.enabled;
    step_low = ok.step_low;
    step_high = ok.step_high;
    waits = ok.waits;
    sent = ok.sent;
  }

  Ok-prev : (w : Form f) → w.pending ≡ [] → 1 < w.current_step → Ok w → Ok (prev_step f w)
  unfolding prev_step render_step
  Ok-prev w e lo ok =
      let more : ltb 1 w.current_step ≡ true = ground arith in
      simp more (
        Ok-check (record w { current_step = w.current_step - 1 })
          (λ j jl jh. ok.passed j jl (omega arith)) (omega arith) (omega (arith, ok.step_high)) e)

  no_requests : (xs : List f.Request) → (0 < length xs → ⊥) → xs ≡ []
  no_requests [] k = refl
  no_requests (x ∷ xs) k = absurd (k (omega arith))

  -- Nothing waits where Next is enabled.
  idle : (w : Form f) → Ok w → w.next_disabled ≡ false → w.pending ≡ []
  idle w ok h = no_requests w.pending (λ m. absurd (true_false (ok.waits m).1))
    where
      true_false : w.next_disabled ≡ true → ⊥
      true_false e = cc

  -- What Next does on the last pane.
  submit_sends :
      (w : Form f)
      → Ok w
      → w.current_step ≡ 3
      → (request : f.Request) × (f.request_of w.inputs ≡ some request) × p.RequestOk request
  submit_sends w ok e =
      p.complete w.inputs (ok.passed 1 (omega arith) (omega arith))
        (ok.passed 2 (omega arith) (omega arith))

  submit-some :
      (w : Form f) (request : f.Request)
      → f.request_of w.inputs ≡ some request
      → submit f w ≡ record w { next_disabled = true; pending = request ∷ w.pending }
  unfolding submit
  submit-some w request e =
      ap
        (λ (o : Option f.Request). elim o [
          | none ↦ w
          | some r ↦ record w { next_disabled = true; pending = r ∷ w.pending }
        ])
        e

  Ok-submit : (w : Form f) → w.current_step ≡ 3 → Ok w → Ok (submit f w)
  Ok-submit w e ok =
      let sends = submit_sends w ok e in
      rw (submit-some w sends.0 sends.1) (record {
        passed = ok.passed;
        enabled = λ h n. absurd (n e);
        step_low = ok.step_low;
        step_high = ok.step_high;
        waits = λ h. (e, refl);
        sent = (sends.2, ok.sent);
      })

  Ok-next : (w : Form f) → w.next_disabled ≡ false → Ok w → Ok (next_step f w)
  unfolding next_step render_step
  Ok-next w h ok = elim (Bool-cases (w.current_step == 3)) [
    | inl e ↦ simp e (Ok-submit w (ground arith) ok)
    | inr e ↦
        let here = ok.enabled h (λ three. absurd (ground arith)) in
        simp e (
          Ok-check (record w { current_step = w.current_step + 1 }) (one_more here) (omega arith)
            (ground (arith, ok.step_high)) (idle w ok h))
  ]
    where
      one_more :
          p.PaneOk w.current_step w.inputs
          → (j : ℕ) → 1 ≤ j
          → j < w.current_step + 1
          → p.PaneOk j w.inputs
      one_more here j jl jh = elim (Bool-cases (j == w.current_step)) [
        | inl e ↦ let same : j ≡ w.current_step = ground arith in rw same here
        | inr e ↦ ok.passed j jl (ground arith)
      ]

  Ok-edit :
      (w : Form f) (new : f.Inputs) (checks : Bool)
      → p.Edits w.current_step w.inputs new checks
      → Ok w
      → Ok (edit f checks new w)
  unfolding edit
  Ok-edit w new checks e ok = go checks e
    where
      open_pane : (b : Bool) → p.Edits w.current_step w.inputs new b → w.current_step ≡ 3 → ⊥
      open_pane b e three = p.summary_shut w.inputs new b (rw three at e)

      go : (b : Bool) → p.Edits w.current_step w.inputs new b → Ok (edit f b new w)
      go true e =
          Ok-check (record w { inputs = new })
            (λ j lo hi. p.before w.current_step j w.inputs new true e lo hi (ok.passed j lo hi))
            ok.step_low ok.step_high (no_requests w.pending (λ m. open_pane true e (ok.waits m).0))
      go false e = record {
        passed =
            λ j lo hi. p.before w.current_step j w.inputs new false e lo hi (ok.passed j lo hi);
        enabled = λ h n. p.unchecked w.current_step w.inputs new e (ok.enabled h n);
        step_low = ok.step_low;
        step_high = ok.step_high;
        waits = ok.waits;
        sent = ok.sent;
      }

  Ok-answers :
      (w : Form f) (request : f.Request) (ok : Bool)
      → w.pending ≡ request ∷ []
      → Ok w
      → Ok (answered f ok [] w)
  unfolding answered
  Ok-answers w request ok e h = record {
    passed = h.passed;
    enabled = λ a n. absurd (n (h.waits (rw e (omega arith))).0);
    step_low = h.step_low;
    step_high = h.step_high;
    waits = λ m. absurd (omega arith);
    sent = tt;
  }

  Step-Ok : {v w : Form f} → Step f p v w → Ok v → Ok w
  Step-Ok {v} (shows e) ok = Ok-show v e
  Step-Ok {v} hides ok = Ok-hide v ok
  Step-Ok {v} (prev e lo) ok = Ok-prev v e lo ok
  Step-Ok {v} (next h) ok = Ok-next v h ok
  Step-Ok {v} (edits new checks e) ok = Ok-edit v new checks e ok
  Step-Ok {v} (answers request o e) ok = Ok-answers v request o e ok

  Reachable-Ok : {w : Form f} → Reachable f p w → Ok w
  Reachable-Ok (opened w e) = Ok-show w e
  Reachable-Ok (goes_on r s) = Step-Ok s (Reachable-Ok r)

-- In each wizard that meets the interface, and in every run in which nobody goes back or opens the form
-- again while a request waits, each request that is sent is as it must be.
pub Reachable-RequestOk :
    (f : FormWizard) (p : Panes f) (w : Form f) → Reachable f p w → All p.RequestOk w.pending
Reachable-RequestOk f p w r = (Reachable-Ok f p r).sent

-- In the same runs, where the summary is shown and Next is enabled, a click on it sends a request that
-- is as it must be, and that is then the only one that waits: the early return is never taken.
pub Reachable-sends :
    (f : FormWizard) (p : Panes f) (w : Form f)
    → Reachable f p w
    → w.current_step ≡ 3
    → w.next_disabled ≡ false
    → (request : f.Request) × p.RequestOk request × ((next_step f w).pending ≡ request ∷ [])
unfolding next_step
Reachable-sends f p w r three enabled =
    let ok = Reachable-Ok f p r in
    let sends = submit_sends f p w ok three in
    let last : w.current_step == 3 ≡ true = ground arith in
    (sends.0, sends.2, simp (last, submit-some f p w sends.0 sends.1, idle f p w ok enabled) refl)
