-- ===== src/Readiness/Activate.antt =====
-- apps/devices/control_readiness.py: `activate_control_key`, over the rows that it writes.
pub mod Control
use novena_hub.Prelude.{
  ℕ, ◌+◌, Bool, true, false, not, ◌&&◌, ◌||◌, String, Option, none, some, List, [], ◌∷◌, ltb, ◌==◌,
  str_eq, refers, option_eq, any, is_some, select, update_where, days, if◌then◌else◌,
}
use novena_hub.Teams.Types.{Team, User, Membership, RemoteControlMode}
use novena_hub.Teams.Roles.{has_permission}
use novena_hub.RemoteControl.Types.{Device}
use novena_hub.RemoteControl.Governance.{
  ScopeMode, ActivationStatus, ControlScope, Commissioned, CommandPolicy, Activation, Governance,
}
use novena_hub.Readiness.Types.{
  Result, ok, integrity_error, deny_with, atomic, AssessmentState, Assessment, Session, ControlKey,
  PolicyBundle, is_ready_for_activation, is_completed,
}

-- What the transaction reads and writes.
pub record ControlState : Type 0 where
  pub team : Team
  pub assessment : Assessment
  pub session : Session
  pub governance : Governance
  pub bundles : List PolicyBundle

abbrev pub in_scope : ℕ → String → List ControlKey → Bool
in_scope device key = any (λ k. (k.device_id == device) && str_eq k.command_key key)

abbrev has_envelope : Device → String → List Commissioned → Bool
has_envelope device key =
    any (λ e. (e.device == device.pk) && (str_eq e.command_key key && e.is_active))

abbrev has_policy : Device → String → List CommandPolicy → Bool
has_policy device key =
    any (λ p. refers p.device device.pk && (str_eq p.command_key key && p.is_enabled))

-- Whether the query for the acknowledged bundle finds one; its order does not matter for that.
abbrev has_bundle : Device → ℕ → List PolicyBundle → Bool
has_bundle device epoch = any (λ b.
    refers device.gateway_id b.gateway
    && ((b.control_epoch == epoch) && (b.is_active && is_some b.acknowledged_at)))

-- The lookup of `RemoteControlScope.objects.update_or_create`.
abbrev pub is_key_scope : Team → Device → String → ControlScope → Bool
is_key_scope team device key s =
    (s.team == team.pk)
    && (option_eq s.site device.site
        && (option_eq s.gateway device.gateway_id
            && (refers s.device device.pk && str_eq s.command_key key)))

abbrev enabled_scope : Team → Device → String → ControlScope
enabled_scope team device key = record {
  team = team.pk;
  site = device.site;
  gateway = device.gateway_id;
  device = some device.pk;
  command_key = key;
  mode = ScopeMode.enabled;
  control_epoch = team.remote_control_epoch;
  reason = "";
}

-- `update_or_create`
unfoldable pub enable_scope : Team → Device → String → List ControlScope → List ControlScope
enable_scope team device key scopes =
    if any (is_key_scope team device key) scopes
    then update_where (is_key_scope team device key)
        (λ s. record s {
          mode = ScopeMode.enabled;
          control_epoch = team.remote_control_epoch;
          reason = "";
        })
        scopes
    else enabled_scope team device key ∷ scopes

-- The unique constraint on the device, the key and the epoch of an activation.
abbrev pub is_taken : Team → Device → String → List Activation → Bool
is_taken team device key = any (λ a.
    (a.device == device.pk)
    && (str_eq a.command_key key && (a.control_epoch == team.remote_control_epoch)))

unfoldable pub new_activation : ℕ → Team → Device → String → Activation
new_activation now team device key = record {
  team = team.pk;
  device = device.pk;
  device_site = device.site;
  device_gateway = device.gateway_id;
  command_key = key;
  status = ActivationStatus.active;
  control_epoch = team.remote_control_epoch;
  expires_at = now + days 365;
  suspended_reason = "";
}

-- The writes below the checks.
unfoldable pub write_activation :
    ℕ → Device → String → ControlState → Result Activation × ControlState
unfolding enable_scope new_activation
write_activation now device key s =
    let scoped = record s.governance {
      scopes = enable_scope s.team device key s.governance.scopes;
    } in
    let activation = new_activation now s.team device key in
    if is_taken s.team device key s.governance.activations
    then (integrity_error, record s { governance = scoped })
    else (
      ok activation,
      record s {
        governance = record scoped { activations = activation ∷ s.governance.activations };
        team = record s.team { remote_control_mode = RemoteControlMode.controlled };
        assessment = record s.assessment { state = AssessmentState.active };
      },
    )

unfoldable pub activate_checked :
    List Membership → ℕ → Device → String → User → ControlState → Result Activation × ControlState
activate_checked members now device key user s =
    if not (has_permission members user (some s.team) "toggle_remote_control" device.site)
    then (
      deny_with "activation_permission_denied"
          "Customer control administrator approval is required.",
      s,
    )
    else if not (is_ready_for_activation s.assessment.state)
    then (deny_with "readiness_incomplete" "Readiness is not ready for activation.", s)
    else if not (is_completed s.session.status)
    then (deny_with "commissioning_incomplete" "Commissioning is not complete.", s)
    else if not (in_scope device.pk key s.session.controls)
    then (deny_with "scope_mismatch" "Key is outside the commissioned session scope.", s)
    else if not (has_envelope device key s.governance.envelopes)
    then (deny_with "commissioning_missing" "No active commissioned envelope exists.", s)
    else if not (has_policy device key s.governance.policies)
    then (deny_with "policy_missing" "No enabled customer command policy exists.", s)
    else if not (has_bundle device s.team.remote_control_epoch s.bundles)
    then (deny_with "policy_not_acknowledged" "Gateway has not acknowledged the active policy.", s)
    else write_activation now device key s

-- `activate_control_key`
unfoldable pub activate_control_key :
    List Membership → ℕ → Device → String → User → ControlState → Result Activation × ControlState
unfolding activate_checked atomic
activate_control_key members now device key user =
    atomic (activate_checked members now device key user)
