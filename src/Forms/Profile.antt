-- ===== src/Forms/Profile.antt =====
-- internal/api/frontend/js/wizards/dp-wizard.js
use chirpstack_simulator.Prelude.{
  [], ◌∷◌, Option, Text, truthy, ℕ, Bool, ◌≡◌, [], trim, if◌then◌else◌, arith, false, text_or,
  codes, ◌≤◌, true, ◌<◌, some, ◌==◌, refl, ◌&&◌, ◌||◌, none,
}
use chirpstack_simulator.Forms.{FormWizard, Bool, ℕ, Option, true, false, some, not, none}
use chirpstack_simulator.Forms.Events.{Panes}
use Prim.Native.String.{[], ◌∷◌}

pub record DpInputs : Type 0 where
  pub tenant : Text
  pub name : Text
  pub description : Text
  pub region : Text
  pub mac_version : Text
  pub reg_params : Text
  pub adr_alg : Text
  pub supports_otaa : Bool
  pub supports_class_b : Bool
  pub supports_class_c : Bool

pub record DpRequest : Type 0 where
  pub name : Text
  pub tenant_id : Text
  pub description : Text
  pub region : Text
  pub mac_version : Text
  pub reg_params_revision : Text
  pub adr_algorithm_id : Text
  pub supports_otaa : Bool
  pub supports_class_b : Bool
  pub supports_class_c : Bool

unfoldable pub dp_valid : ℕ → DpInputs → Bool
dp_valid step i = if step == 1 then truthy i.tenant && truthy (trim i.name) else true

unfoldable pub dp_data : DpInputs → DpRequest
dp_data i = record {
  name = trim i.name;
  tenant_id = i.tenant;
  description = trim i.description;
  region = i.region;
  mac_version = i.mac_version;
  reg_params_revision = i.reg_params;
  adr_algorithm_id = text_or i.adr_alg (codes "default");
  supports_otaa = i.supports_otaa;
  supports_class_b = i.supports_class_b;
  supports_class_c = i.supports_class_c;
}

unfoldable pub dp_request : DpInputs → Option DpRequest
unfolding dp_data
dp_request i =
    if not (truthy (trim i.name)) || not (truthy i.tenant) then none else some (dp_data i)

abbrev pub dp_wizard : FormWizard
dp_wizard = record {
  Inputs = DpInputs;
  Request = DpRequest;
  cleared = record {
    tenant = [];
    name = [];
    description = [];
    region = codes "EU868";
    mac_version = codes "LORAWAN_1_0_3";
    reg_params = codes "B";
    adr_alg = codes "default";
    supports_otaa = true;
    supports_class_b = false;
    supports_class_c = false;
  };
  pane_valid = dp_valid;
  request_of = dp_request;
}

-- The inputs of the panes. Only the tenant and the name have a listener.
pub data DpEdits (step : ℕ) (i : DpInputs) : DpInputs → Bool → Type 0 where
  tenant : (t : Text) → step ≡ 1 → DpEdits step i (record i { tenant = t }) true
  name : (n : Text) → step ≡ 1 → DpEdits step i (record i { name = n }) true
  description : (d : Text) → step < 3 → DpEdits step i (record i { description = d }) false
  radio :
      (region mac_version reg_params adr_alg : Text)
      → step < 3
      → DpEdits step i
          (record i {
            region = region;
            mac_version = mac_version;
            reg_params = reg_params;
            adr_alg = adr_alg;
          })
          false
  classes :
      (otaa class_b class_c : Bool)
      → step < 3
      → DpEdits step i
          (record i {
            supports_otaa = otaa;
            supports_class_b = class_b;
            supports_class_c = class_c;
          })
          false

pub dp_before :
    (k j : ℕ) (old new : DpInputs) (checks : Bool)
    → DpEdits k old new checks
    → 1 ≤ j
    → j < k
    → dp_valid j old ≡ true
    → dp_valid j new ≡ true
unfolding dp_valid
dp_before k j old new checks (tenant t e) lo hi v = absurd (omega arith)
dp_before k j old new checks (name n e) lo hi v = absurd (omega arith)
dp_before k j old new checks (description d e) lo hi v = v
dp_before k j old new checks (radio a b c d e) lo hi v = v
dp_before k j old new checks (classes a b c e) lo hi v = v

pub dp_unchecked :
    (k : ℕ) (old new : DpInputs) (b : Bool)
    → DpEdits k old new b
    → b ≡ false
    → dp_valid k old ≡ true
    → dp_valid k new ≡ true
unfolding dp_valid
dp_unchecked k old new b (tenant t e) f v = cc
dp_unchecked k old new b (name n e) f v = cc
dp_unchecked k old new b (description d e) f v = v
dp_unchecked k old new b (radio a x c d e) f v = v
dp_unchecked k old new b (classes a x c e) f v = v

pub dp_shut : (old new : DpInputs) (checks : Bool) → DpEdits 3 old new checks → ⊥
dp_shut old new checks (tenant t e) = omega arith
dp_shut old new checks (name n e) = omega arith
dp_shut old new checks (description d e) = omega arith
dp_shut old new checks (radio a b c d e) = omega arith
dp_shut old new checks (classes a b c e) = omega arith

abbrev pub DpRequestOk : DpRequest → Type 0
DpRequestOk r =
    (truthy r.name ≡ true) × (truthy r.tenant_id ≡ true) × (truthy r.adr_algorithm_id ≡ true)

text_or-truthy : (a b : Text) → truthy b ≡ true → truthy (text_or a b) ≡ true
text_or-truthy [] b h = h
text_or-truthy (x ∷ xs) b h = refl

pub dp_complete :
    (i : DpInputs)
    → dp_valid 1 i ≡ true
    → dp_valid 2 i ≡ true
    → (request : DpRequest) × (dp_request i ≡ some request) × DpRequestOk request
unfolding dp_valid dp_request dp_data
dp_complete i h k =
    let t : truthy i.tenant ≡ true = ground arith in
    let n : truthy (trim i.name) ≡ true = ground arith in
    (dp_data i, simp (t, n) refl, (n, t, text_or-truthy i.adr_alg (codes "default") refl))

abbrev pub dp_panes : Panes dp_wizard
dp_panes = record {
  Edits = DpEdits;
  PaneOk = λ k i. dp_valid k i ≡ true;
  RequestOk = DpRequestOk;
  valid = λ k i h. h;
  before = dp_before;
  unchecked = λ k old new e. dp_unchecked k old new false e refl;
  summary_shut = dp_shut;
  complete = dp_complete;
}
