-- ===== src/Forms/Unchecked.antt =====
-- An answer that comes after the user has gone back.
use chirpstack_simulator.Prelude.{Text, false, true, [], truthy, trim, ◌≡◌, ◌∷◌, refl}
use chirpstack_simulator.Forms.{
  next_step, Form, prev_step, submit, answered, false, true, edit, render_step, check_validation,
}
use chirpstack_simulator.Forms.Device.{DevInputs, dev_wizard, dev_request, dev_data}

-- The summary of the device wizard, open and with nothing sent.
abbrev pub summary_of : DevInputs → Form dev_wizard
summary_of i = record {
  current_step = 3;
  inputs = i;
  next_disabled = false;
  visible = true;
  pending = [];
}

-- Send, go back, type another DevEUI, and have the request refused.
abbrev pub back_and_refused : Text → DevInputs → Form dev_wizard
back_and_refused e i =
    let back = prev_step dev_wizard (next_step dev_wizard (summary_of i)) in
    answered dev_wizard false [] (edit dev_wizard true (record back.inputs { eui = e }) back)

-- If a device request is refused after the user has gone back and typed another DevEUI, Next is enabled
-- whatever was typed, and two clicks on it send a request with that DevEUI, unless it is blank: the test
-- for 16 characters is passed over.
pub next_step_unchecked :
    (e : Text) (i : DevInputs)
    → truthy (trim i.eui) ≡ true
    → truthy (trim i.name) ≡ true
    → truthy i.app ≡ true
    → truthy i.profile ≡ true
    → truthy (trim e) ≡ true
    → ((back_and_refused e i).next_disabled ≡ false)
      × ((next_step dev_wizard (next_step dev_wizard (back_and_refused e i))).pending
          ≡ record (dev_data i) { dev_eui = trim e } ∷ [])
unfolding next_step prev_step submit answered edit render_step check_validation dev_request dev_data
next_step_unchecked e i eui name app profile blank =
    simp (eui, name, app, profile, blank) (refl, refl)
