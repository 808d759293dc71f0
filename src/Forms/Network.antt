-- ===== src/Forms/Network.antt =====
-- internal/api/frontend/js/wizards/network-wizard.js
use chirpstack_simulator.Prelude.{
  ◌≡◌, truthy, Option, Bool, Text, ℕ, [], if◌then◌else◌, arith, false, true, ◌≤◌, ◌<◌, ◌==◌, some,
  trim, refl, ◌||◌, none,
}
use chirpstack_simulator.Forms.{FormWizard, Option, Bool, ℕ, false, true, some, not, none}
use chirpstack_simulator.Forms.Events.{Panes}
use Prim.Native.String.{[]}

pub record NetInputs : Type 0 where
  pub tenant : Text
  pub name : Text
  pub prefix : Text

pub record NetRequest : Type 0 where
  pub name : Text
  pub tenant_id : Text
  pub description : Text

unfoldable pub net_valid : ℕ → NetInputs → Bool
net_valid step i =
    if step == 1 then truthy i.tenant else if step == 2 then truthy (trim i.name) else true

unfoldable pub net_request : NetInputs → Option NetRequest
net_request i =
    if not (truthy (trim i.name)) || not (truthy i.tenant)
    then none
    else some (record { name = trim i.name; tenant_id = i.tenant; description = trim i.prefix })

abbrev pub net_wizard : FormWizard
net_wizard = record {
  Inputs = NetInputs;
  Request = NetRequest;
  cleared = record { tenant = []; name = []; prefix = [] };
  pane_valid = net_valid;
  request_of = net_request;
}

-- The inputs of the panes. The one for the prefix has no listener.
pub data NetEdits (step : ℕ) (i : NetInputs) : NetInputs → Bool → Type 0 where
  tenant : (t : Text) → step ≡ 1 → NetEdits step i (record i { tenant = t }) true
  name : (n : Text) → step ≡ 2 → NetEdits step i (record i { name = n }) true
  prefix : (x : Text) → step ≡ 2 → NetEdits step i (record i { prefix = x }) false

pub net_before :
    (k j : ℕ) (old new : NetInputs) (checks : Bool)
    → NetEdits k old new checks
    → 1 ≤ j
    → j < k
    → net_valid j old ≡ true
    → net_valid j new ≡ true
unfolding net_valid
net_before k j old new checks (tenant t e) lo hi v = absurd (omega arith)
net_before k j old new checks (name n e) lo hi v =
    let first : j ≡ 1 = omega arith in rw first (rw first at v)
net_before k j old new checks (prefix x e) lo hi v = v

pub net_unchecked :
    (k : ℕ) (old new : NetInputs) (b : Bool)
    → NetEdits k old new b
    → b ≡ false
    → net_valid k old ≡ true
    → net_valid k new ≡ true
unfolding net_valid
net_unchecked k old new b (tenant t e) f v = cc
net_unchecked k old new b (name n e) f v = cc
net_unchecked k old new b (prefix x e) f v = v

pub net_shut : (old new : NetInputs) (checks : Bool) → NetEdits 3 old new checks → ⊥
net_shut old new checks (tenant t e) = omega arith
net_shut old new checks (name n e) = omega arith
net_shut old new checks (prefix x e) = omega arith

abbrev pub NetRequestOk : NetRequest → Type 0
NetRequestOk r = (truthy r.name ≡ true) × (truthy r.tenant_id ≡ true)

pub net_complete :
    (i : NetInputs)
    → net_valid 1 i ≡ true
    → net_valid 2 i ≡ true
    → (request : NetRequest) × (net_request i ≡ some request) × NetRequestOk request
unfolding net_valid net_request
net_complete i t n = (
  record { name = trim i.name; tenant_id = i.tenant; description = trim i.prefix },
  simp (t, n) refl,
  (n, t),
)

abbrev pub net_panes : Panes net_wizard
net_panes = record {
  Edits = NetEdits;
  PaneOk = λ k i. net_valid k i ≡ true;
  RequestOk = NetRequestOk;
  valid = λ k i h. h;
  before = net_before;
  unchecked = λ k old new e. net_unchecked k old new false e refl;
  summary_shut = net_shut;
  complete = net_complete;
}
