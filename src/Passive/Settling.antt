-- ===== src/Passive/Settling.antt =====
-- When the requests about pending changes come to an end, and when they do not.
use chirpstack_simulator.Prelude.{Bool, ℕ, suc, ◌*◌, ◌<◌, ◌≡◌, true, ◌+◌, false, arith, refl, zero}
use chirpstack_simulator.Passive.{
  Sync, status_answered, Bool, ℕ, dismiss_answered, on_topology_change, refresh_sync_status, true,
  false, dismiss_changes,
}

-- The server answers one of the requests, in any order; a question by what it has at that moment.
pub data Answers : Sync → Sync → Type 0 where
  status : {s : Sync} (ok : Bool) → 0 < s.statuses → Answers s (status_answered ok s)
  dismissal : {s : Sync} (taken : Bool) → 0 < s.dismissals → Answers s (dismiss_answered taken s)

-- So many answers lead from one state to the other.
pub data Run : ℕ → Sync → Sync → Type 0 where
  done : {s : Sync} → Run 0 s s
  more : {n : ℕ} {s t u : Sync} → Answers s t → Run n t u → Run (suc n) s u

abbrev pub outstanding : Sync → ℕ
outstanding s = 2 * s.dismissals + s.statuses

Answers-settle :
    {s t : Sync}
    → Answers s t
    → s.server_pending ≡ false
    → (t.server_pending ≡ false) × (outstanding s ≡ suc (outstanding t))
unfolding status_answered dismiss_answered refresh_sync_status
Answers-settle {s} (status ok k) h = ground arith
Answers-settle {s} (dismissal taken k) h = ground arith

-- Once the server has no pending changes, and answers each question by what it has at that moment, the
-- requests come to an end, whichever it refuses and in whatever order: after n answers, n less are to
-- come, of two for each dismissal that is not answered and one for each question.
pub Run-outstanding :
    {n : ℕ} {s t : Sync} → Run n s t → s.server_pending ≡ false → n + outstanding t ≡ outstanding s
Run-outstanding done h = omega arith
Run-outstanding (more a r) h =
    let step = Answers-settle a h in omega (arith, Run-outstanding r step.0, step.1)

-- After one question and one refused dismissal.
abbrev pub round : Sync → Sync
round s = dismiss_answered false (status_answered true s)

round-Run :
    (s : Sync) (n : ℕ) (t : Sync)
    → s.server_pending ≡ true
    → s.is_running ≡ false
    → 0 < s.statuses
    → Run n (round s) t
    → Run (suc (suc n)) s t
unfolding status_answered on_topology_change refresh_sync_status dismiss_changes
round-Run s n t p r k rest =
    more (status true k) (more (dismissal false (simp (p, r) (omega arith))) rest)

round_again :
    (s : Sync)
    → s.server_pending ≡ true
    → s.is_running ≡ false
    → 0 < s.statuses
    → ((round s).server_pending ≡ true)
      × ((round s).is_running ≡ false)
      × ((round s).statuses ≡ s.statuses + 1)
unfolding status_answered dismiss_answered on_topology_change refresh_sync_status dismiss_changes
round_again s p r k = simp (p, r) (refl, refl, omega arith)

-- While no simulation runs, the server has pending changes, a question waits and the server refuses
-- to dismiss the changes, the requests need not come to an end: for every n there is a run of two
-- times n answers after which n more questions wait than before.
pub Run-unsettled :
    (n : ℕ) (s : Sync)
    → s.server_pending ≡ true
    → s.is_running ≡ false
    → 0 < s.statuses
    → (t : Sync) × Run (n * 2) s t × (t.statuses ≡ s.statuses + n)
Run-unsettled zero s p r k = (s, done, omega arith)
Run-unsettled (suc n) s p r k =
    let again = round_again s p r k in
    let (t, run, count) = Run-unsettled n (round s) again.0 again.1 (omega (arith, again.2)) in
    let twice : suc n * 2 ≡ suc (suc (n * 2)) = omega arith in
    (t, rw twice (round-Run s (n * 2) t p r k run), omega (arith, count, again.2))
