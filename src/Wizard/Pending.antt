-- ===== src/Wizard/Pending.antt =====
-- A click on Previous while a set-up request waits for its answer.
use chirpstack_simulator.Prelude.{◌≡◌, true, false, length, ◌+◌, arith, refl}
use chirpstack_simulator.Wizard.{
  next_bootstrap_step, prev_bootstrap_step, go_to_step, render_bootstrap_step, submit_bootstrap,
  step_valid, Wizard,
}

next_at_5 : (w : Wizard) → w.current_step ≡ 5 → next_bootstrap_step w ≡ submit_bootstrap w
unfolding next_bootstrap_step step_valid
next_at_5 w e = simp e refl

prev_at_5 : (w : Wizard) → w.current_step ≡ 5 → prev_bootstrap_step w ≡ go_to_step 4 w
unfolding prev_bootstrap_step
prev_at_5 w e = simp e refl

next_at_4 :
    (w : Wizard)
    → w.current_step ≡ 4
    → step_valid 4 w.inputs ≡ true
    → next_bootstrap_step w ≡ go_to_step 5 w
unfolding next_bootstrap_step
next_at_4 w e v = simp (e, v) refl

-- While a set-up request waits, Next is disabled, but Previous is not, and the step that it shows
-- enables Next again: with Previous, Next and Next a user sends a second request before the first one
-- is answered.
pub next_bootstrap_step_resent :
    (w : Wizard)
    → w.current_step ≡ 5
    → step_valid 4 w.inputs ≡ true
    → let sent = next_bootstrap_step w in
      let back = prev_bootstrap_step sent in
      (sent.next_disabled ≡ true)
      × (back.next_disabled ≡ false)
      × (length (next_bootstrap_step (next_bootstrap_step back)).pending ≡ length w.pending + 2)
unfolding go_to_step render_bootstrap_step submit_bootstrap
next_bootstrap_step_resent w e v =
    let sent = submit_bootstrap w in
    let back = go_to_step 4 sent in
    let again = go_to_step 5 back in
    rw (next_at_5 w e, prev_at_5 sent e, next_at_4 back refl v, next_at_5 again refl)
      (refl, refl, omega arith)
