-- ===== src/RemoteControl/Revalidation.antt =====
-- apps/devices/remote_control.py: `_dispatch_revalidation_error`, the checks that a queued command
-- passes again when it is claimed. `now` is the reading of the clock in that transaction.
pub mod Authority
use novena_hub.Prelude.{
  ℕ, Bool, true, false, not, ◌&&◌, ◌||◌, String, Option, none, some, str_eq, ◌==◌, leb, refers,
  find?, if◌then◌else◌,
}
use novena_hub.Teams.Types.{Team, RemoteControlMode}
use novena_hub.RemoteControl.Types.{Command, Gateway, Device, Denial}
use novena_hub.RemoteControl.Catalog.{CommandDefinition, catalog_get}
use novena_hub.RemoteControl.Protocol.{state_change_capability_error}
use novena_hub.RemoteControl.Governance.{
  ControlScope, TemplateControl, Commissioned, CommandPolicy, Activation, Governance,
  is_enabled_mode, is_active_status,
}

abbrev pub deny : String → String → Option Denial
deny code message = some (record { code = code; message = message })

abbrev pub is_controlled : RemoteControlMode → Bool
is_controlled RemoteControlMode.controlled = true
is_controlled _ = false

-- `x or y` of two checks: the first refusal counts.
abbrev pub or_else {ℓ} : {A : Type ℓ} → Option A → Option A → Option A
or_else none y = y
or_else (some a) y = some a

unfoldable pub state_change_error : Command → Team → Gateway → Option Denial
state_change_error command team gateway =
    if not (is_controlled team.remote_control_mode)
    then deny "remote_control_revoked" "Remote control was disabled before dispatch."
    else if not (command.control_epoch == team.remote_control_epoch)
    then deny "control_epoch_changed" "The control epoch changed before dispatch."
    else state_change_capability_error gateway

unfoldable pub readiness_is_stale : Command → Gateway → Bool
readiness_is_stale command gateway =
    not gateway.remote_control_policy_loaded
    || (not (gateway.remote_control_epoch == command.control_epoch)
        || (not (gateway.remote_control_policy_revision == command.policy_revision)
            || (not gateway.remote_control_clock_ready
                || (not gateway.remote_control_journal_ready
                    || not gateway.remote_control_storage_healthy))))

unfoldable pub scope_matches : Command → Team → Gateway → Device → ControlScope → Bool
scope_matches command team gateway device s =
    (s.team == team.pk)
    && (refers s.gateway gateway.pk
        && (refers s.device device.pk
            && (str_eq s.command_key command.command_key
                && (is_enabled_mode s.mode && (s.control_epoch == command.control_epoch)))))

unfoldable pub definition_matches : Command → Device → TemplateControl → Bool
definition_matches command device d =
    refers device.template_id d.template
    && (str_eq d.command_key command.command_key
        && ((d.revision == command.template_revision) && (d.is_verified && d.is_enabled)))

unfoldable pub envelope_matches : Command → Team → Device → Commissioned → Bool
envelope_matches command team device e =
    (e.team == team.pk)
    && ((e.device == device.pk)
        && (str_eq e.command_key command.command_key
            && ((e.revision == command.commissioning_revision) && e.is_active)))

unfoldable pub policy_matches : Command → Team → Gateway → Device → CommandPolicy → Bool
policy_matches command team gateway device p =
    (p.team == team.pk)
    && (refers p.gateway gateway.pk
        && (refers p.device device.pk
            && (str_eq p.command_key command.command_key
                && ((p.revision == command.policy_revision)
                    && (str_eq p.checksum command.policy_checksum && p.is_enabled)))))

unfoldable pub activation_matches : Command → Team → Device → Activation → Bool
activation_matches command team device a =
    (a.team == team.pk)
    && ((a.device == device.pk)
        && (str_eq a.command_key command.command_key
            && (is_active_status a.status && (a.control_epoch == command.control_epoch))))

-- `commissioned.expires_at and commissioned.expires_at <= timezone.now()`
abbrev pub has_passed : Option ℕ → ℕ → Bool
has_passed none now = false
has_passed (some t) now = leb t now

unfoldable pub expiry_error : ℕ → Commissioned → Activation → Option Denial
expiry_error now commissioned activation =
    if has_passed commissioned.expires_at now
    then deny "commissioning_expired" "The commissioned control envelope expired before dispatch."
    else if leb activation.expires_at now
    then deny "activation_expired" "The control activation expired before dispatch."
    else none

-- `if not all([scope, definition_row, commissioned, policy, activation])` and what follows it.
unfoldable pub found_error :
    ℕ
    → Option ControlScope
    → Option TemplateControl
    → Option Commissioned
    → Option CommandPolicy
    → Option Activation
    → Option Denial
found_error now (some _) (some _) (some commissioned) (some _) (some activation) =
    expiry_error now commissioned activation
found_error now _ _ _ _ _ =
    deny "governance_changed" "The command's governing records changed before dispatch."

unfoldable pub governance_error : ℕ → Governance → Command → Team → Gateway → Device → Option Denial
governance_error now g command team gateway device =
    found_error now (find? (scope_matches command team gateway device) g.scopes)
      (find? (definition_matches command device) g.definitions)
      (find? (envelope_matches command team device) g.envelopes)
      (find? (policy_matches command team gateway device) g.policies)
      (find? (activation_matches command team device) g.activations)

unfoldable pub device_is_foreign : Team → Gateway → Device → Bool
device_is_foreign team gateway device =
    not (refers device.gateway_id gateway.pk) || not (device.team_id == team.pk)

-- The checks of a write, below `if command.operation != "write_device": return None`.
unfoldable pub write_error :
    ℕ → Governance → Command → Team → Gateway → Option Device → Option Denial
write_error now g command team gateway none =
    deny "device_identity_changed" "The canonical device no longer belongs to this Gateway."
write_error now g command team gateway (some device) =
    if device_is_foreign team gateway device
    then deny "device_identity_changed" "The canonical device no longer belongs to this Gateway."
    else if not (refers command.params.device_id device.pk) || str_eq command.command_key ""
    then deny "canonical_target_invalid"
        "The command does not contain one canonical device and writable key."
    else if readiness_is_stale command gateway
    then deny "gateway_readiness_stale"
        "The Gateway has not advertised matching governed-control readiness."
    else governance_error now g command team gateway device

unfoldable pub defined_error :
    ℕ → Governance → CommandDefinition → Command → Team → Gateway → Option Device → Option Denial
defined_error now g definition command team gateway device =
    if leb command.expires_at now
    then deny "command_expired" "The command expired before dispatch."
    else if not (command.gateway_id == gateway.pk) || not (command.team_id == team.pk)
    then deny "gateway_identity_changed" "The command Gateway identity is no longer valid."
    else or_else
        (if definition.state_changing then state_change_error command team gateway else none)
        (if str_eq command.operation "write_device"
          then write_error now g command team gateway device
          else none)

unfoldable pub dispatch_revalidation_error :
    ℕ → Governance → Command → Team → Gateway → Option Device → Option Denial
dispatch_revalidation_error now g command team gateway device =
    elim (catalog_get command.operation) [
      | none ↦ deny "unsupported_operation" "The command operation is no longer supported."
      | some definition ↦ defined_error now g definition command team gateway device
    ]
