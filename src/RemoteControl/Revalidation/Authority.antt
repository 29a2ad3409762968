-- ===== src/RemoteControl/Revalidation/Authority.antt =====
-- apps/devices/remote_control.py: proofs on `_dispatch_revalidation_error`.
use mathlib.Core.List.{Memᴰ}
use novena_hub.Prelude.{
  ℕ, ◌<◌, ◌≡◌, ◌≢◌, refl, true, false, Option, none, some, arith, find?-sound, str_eq, eq_iff,
}
use novena_hub.Teams.Types.{Team, RemoteControlMode}
use novena_hub.RemoteControl.Types.{Command, Gateway, Device}
use novena_hub.RemoteControl.Catalog.{CommandDefinition, catalog_get}
use novena_hub.RemoteControl.Protocol.Eligibility.{IsEligible, no_error-IsEligible}
use novena_hub.RemoteControl.Governance.{
  ScopeMode, ActivationStatus, ControlScope, TemplateControl, Commissioned, CommandPolicy,
  Activation, Governance,
}
use novena_hub.RemoteControl.Revalidation.{
  state_change_error, readiness_is_stale, scope_matches, activation_matches, expiry_error,
  found_error, governance_error, device_is_foreign, write_error, defined_error,
  dispatch_revalidation_error,
}

-- The team controls its equipment in the epoch of the command, through an eligible Gateway.
pub record IsInControl (c : Command) (team : Team) (gateway : Gateway) : Type 0 where
  pub mode : team.remote_control_mode ≡ RemoteControlMode.controlled
  pub epoch : c.control_epoch ≡ team.remote_control_epoch
  pub eligible : IsEligible gateway

-- The Gateway has advertised the policy and the epoch of the command, and is ready for it.
pub record IsReady (c : Command) (gateway : Gateway) : Type 0 where
  pub loaded : gateway.remote_control_policy_loaded ≡ true
  pub epoch : gateway.remote_control_epoch ≡ c.control_epoch
  pub revision : gateway.remote_control_policy_revision ≡ c.policy_revision
  pub clock : gateway.remote_control_clock_ready ≡ true
  pub journal : gateway.remote_control_journal_ready ≡ true
  pub storage : gateway.remote_control_storage_healthy ≡ true

-- An enabled scope of the epoch, and an activation of the epoch that has not expired.
pub record IsActivated (now : ℕ) (g : Governance) (c : Command) (team : Team) (gateway : Gateway)
    (device : Device) : Type 0 where
  pub scope : ControlScope
  pub scope_in : Memᴰ scope g.scopes
  pub scope_team : scope.team ≡ team.pk
  pub scope_gateway : scope.gateway ≡ some gateway.pk
  pub scope_device : scope.device ≡ some device.pk
  pub scope_key : scope.command_key ≡ c.command_key
  pub scope_mode : scope.mode ≡ ScopeMode.enabled
  pub scope_epoch : scope.control_epoch ≡ c.control_epoch
  pub activation : Activation
  pub activation_in : Memᴰ activation g.activations
  pub activation_device : activation.device ≡ device.pk
  pub activation_key : activation.command_key ≡ c.command_key
  pub activation_status : activation.status ≡ ActivationStatus.active
  pub activation_epoch : activation.control_epoch ≡ c.control_epoch
  pub activation_lasts : now < activation.expires_at

scope_fields :
    (c : Command) (team : Team) (gateway : Gateway) (device : Device) (s : ControlScope)
    → scope_matches c team gateway device s ≡ true
    → (s.team ≡ team.pk)
      × (s.gateway ≡ some gateway.pk)
      × (s.device ≡ some device.pk)
      × (s.command_key ≡ c.command_key)
      × (s.mode ≡ ScopeMode.enabled)
      × (s.control_epoch ≡ c.control_epoch)
unfolding scope_matches
scope_fields c team gateway device s h = ground (arith, eq_iff s.command_key c.command_key)

activation_fields :
    (c : Command) (team : Team) (device : Device) (a : Activation)
    → activation_matches c team device a ≡ true
    → (a.device ≡ device.pk)
      × (a.command_key ≡ c.command_key)
      × (a.status ≡ ActivationStatus.active)
      × (a.control_epoch ≡ c.control_epoch)
unfolding activation_matches
activation_fields c team device a h = ground (arith, eq_iff a.command_key c.command_key)

-- A query that is answered, for each of the five records.
found_all :
    (now : ℕ) (s : Option ControlScope) (d : Option TemplateControl) (e : Option Commissioned)
    (p : Option CommandPolicy) (a : Option Activation)
    → found_error now s d e p a ≡ none
    → (scope : ControlScope) × (activation : Activation) × (s ≡ some scope)
      × (a ≡ some activation)
      × (now < activation.expires_at)
unfolding found_error expiry_error
found_all now (some s) (some d) (some e) (some p) (some a) h = (s, a, refl, refl, ground arith)
found_all now none _ _ _ _ h = cc
found_all now (some s) none _ _ _ h = cc
found_all now (some s) (some d) none _ _ h = cc
found_all now (some s) (some d) (some e) none _ h = cc
found_all now (some s) (some d) (some e) (some p) none h = cc

activated :
    (now : ℕ) (g : Governance) (c : Command) (team : Team) (gateway : Gateway) (device : Device)
    → governance_error now g c team gateway device ≡ none
    → IsActivated now g c team gateway device
unfolding governance_error
activated now g c team gateway device h =
    let (scope, activation, found_scope, found_activation, lasts) = found_all now _ _ _ _ _ h in
    let (scope_in, scope_ok) = find?-sound _ g.scopes found_scope in
    let (activation_in, activation_ok) = find?-sound _ g.activations found_activation in
    let (t, gw, dv, key, mode, epoch) = scope_fields c team gateway device scope scope_ok in
    let (adv, akey, astatus, aepoch) = activation_fields c team device activation activation_ok in
    record {
      scope = scope;
      scope_in = scope_in;
      scope_team = t;
      scope_gateway = gw;
      scope_device = dv;
      scope_key = key;
      scope_mode = mode;
      scope_epoch = epoch;
      activation = activation;
      activation_in = activation_in;
      activation_device = adv;
      activation_key = akey;
      activation_status = astatus;
      activation_epoch = aepoch;
      activation_lasts = lasts;
    }

-- The exact device of this Gateway and team, a ready Gateway and an activated key.
pub record IsWriteAuthorized (now : ℕ) (g : Governance) (c : Command) (team : Team)
    (gateway : Gateway) (found : Option Device) : Type 0 where
  pub device : Device
  pub device_found : found ≡ some device
  pub device_gateway : device.gateway_id ≡ some gateway.pk
  pub device_team : device.team_id ≡ team.pk
  pub target : c.params.device_id ≡ some device.pk
  pub key_named : c.command_key ≢ ""
  pub ready : IsReady c gateway
  pub key_activated : IsActivated now g c team gateway device

-- What dispatch demands of a command: a catalogued operation, not expired, on its own Gateway and
-- team; control of the team if it changes state; and the authority of a write if it writes.
pub record IsAuthorized (now : ℕ) (g : Governance) (c : Command) (team : Team) (gateway : Gateway)
    (device : Option Device) : Type 0 where
  pub definition : CommandDefinition
  pub catalogued : catalog_get c.operation ≡ some definition
  pub unexpired : now < c.expires_at
  pub own_gateway : c.gateway_id ≡ gateway.pk
  pub own_team : c.team_id ≡ team.pk
  pub controls : definition.state_changing ≡ true → IsInControl c team gateway
  pub writes : c.operation ≡ "write_device" → IsWriteAuthorized now g c team gateway device

in_control :
    (c : Command) (team : Team) (gateway : Gateway)
    → state_change_error c team gateway ≡ none
    → IsInControl c team gateway
unfolding state_change_error
in_control c team gateway h = record {
  mode = ground arith;
  epoch = ground arith;
  eligible = no_error-IsEligible gateway (ground arith);
}

ready_of :
    (c : Command) (gateway : Gateway) → readiness_is_stale c gateway ≡ false → IsReady c gateway
unfolding readiness_is_stale
ready_of c gateway h = record {
  loaded = ground arith;
  epoch = ground arith;
  revision = ground arith;
  clock = ground arith;
  journal = ground arith;
  storage = ground arith;
}

device_facts :
    (now : ℕ) (g : Governance) (c : Command) (team : Team) (gateway : Gateway) (device : Device)
    → write_error now g c team gateway (some device) ≡ none
    → (device.gateway_id ≡ some gateway.pk)
      × (device.team_id ≡ team.pk)
      × (c.params.device_id ≡ some device.pk)
      × (str_eq c.command_key "" ≡ false)
      × (readiness_is_stale c gateway ≡ false)
      × (governance_error now g c team gateway device ≡ none)
unfolding write_error device_is_foreign
device_facts now g c team gateway device h = ground arith

write_authorized :
    (now : ℕ) (g : Governance) (c : Command) (team : Team) (gateway : Gateway)
    (device : Option Device)
    → write_error now g c team gateway device ≡ none
    → IsWriteAuthorized now g c team gateway device
unfolding write_error
write_authorized now g c team gateway none h = cc
write_authorized now g c team gateway (some device) h =
    let (gw, t, target, key, ready, governed) = device_facts now g c team gateway device h in
    record {
      device = device;
      device_found = refl;
      device_gateway = gw;
      device_team = t;
      target = target;
      key_named = λ e. ground (arith, eq_iff c.command_key "");
      ready = ready_of c gateway ready;
      key_activated = activated now g c team gateway device governed;
    }

defined_error-IsAuthorized :
    (now : ℕ) (g : Governance) (d : CommandDefinition) (c : Command) (team : Team)
    (gateway : Gateway) (device : Option Device)
    → catalog_get c.operation ≡ some d
    → defined_error now g d c team gateway device ≡ none
    → IsAuthorized now g c team gateway device
unfolding defined_error
defined_error-IsAuthorized now g d c team gateway device known h = record {
  definition = d;
  catalogued = known;
  unexpired = ground arith;
  own_gateway = ground arith;
  own_team = ground arith;
  controls = λ changing. in_control c team gateway (ground arith);
  writes = λ writing.
      write_authorized now g c team gateway device
        (ground (arith, eq_iff c.operation "write_device"));
}

catalog_get-IsAuthorized :
    (now : ℕ) (g : Governance) (c : Command) (team : Team) (gateway : Gateway)
    (device : Option Device) (found : Option CommandDefinition)
    → catalog_get c.operation ≡ found
    → dispatch_revalidation_error now g c team gateway device ≡ none
    → IsAuthorized now g c team gateway device
unfolding dispatch_revalidation_error
catalog_get-IsAuthorized now g c team gateway device none known h = ground arith
catalog_get-IsAuthorized now g c team gateway device (some d) known h =
    defined_error-IsAuthorized now g d c team gateway device known (ground arith)

-- A command that revalidation does not refuse is authorized.
pub revalidation_sound :
    (now : ℕ) (g : Governance) (c : Command) (team : Team) (gateway : Gateway)
    (device : Option Device)
    → dispatch_revalidation_error now g c team gateway device ≡ none
    → IsAuthorized now g c team gateway device
revalidation_sound now g c team gateway device h =
    catalog_get-IsAuthorized now g c team gateway device (catalog_get c.operation) refl h
