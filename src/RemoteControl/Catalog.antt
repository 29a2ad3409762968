-- ===== src/RemoteControl/Catalog.antt =====
-- apps/devices/remote_control.py: the command catalogue and the order of the statuses.
use novena_hub.Prelude.{
  ℕ, Bool, true, false, String, Option, none, some, List, [], ◌∷◌, str_eq, if◌then◌else◌,
}
use novena_hub.RemoteControl.Types.{Risk, diagnostic, low, high, critical, Status}

-- `CommandDefinition`
pub record CommandDefinition : Type 0 where
  pub operation : String
  pub risk : Risk
  pub state_changing : Bool
  pub permission : String
  pub device_required : Bool

abbrev define : String → Risk → Bool → String → Bool → CommandDefinition
define operation risk state_changing permission device_required = record {
  operation = operation;
  risk = risk;
  state_changing = state_changing;
  permission = permission;
  device_required = device_required;
}

-- `COMMAND_CATALOG`, whose keys are the operations of its entries.
unfoldable pub command_catalog : List CommandDefinition
command_catalog =
    define "ping" diagnostic false "request_low_risk_commands" false
    ∷ define "get_status" diagnostic false "request_low_risk_commands" false
    ∷ define "get_devices" diagnostic false "request_low_risk_commands" false
    ∷ define "get_config_status" diagnostic false "request_low_risk_commands" false
    ∷ define "network_preflight" diagnostic false "request_low_risk_commands" false
    ∷ define "hardware_preflight" diagnostic false "request_low_risk_commands" false
    ∷ define "privilege_preflight" diagnostic false "request_low_risk_commands" false
    ∷ define "scan_devices" low false "request_low_risk_commands" false
    ∷ define "deployment_preflight" diagnostic false "manage_devices" false
    ∷ define "deployment_discover" diagnostic false "manage_devices" false
    ∷ define "deployment_validate" diagnostic false "manage_devices" false
    ∷ define "read_device" diagnostic false "request_low_risk_commands" true
    ∷ define "write_device" high true "request_high_risk_commands" true
    ∷ define "restart_connector" high true "request_high_risk_commands" false
    ∷ define "restart_all" high true "request_high_risk_commands" false
    ∷ define "set_log_level" high true "request_high_risk_commands" false
    ∷ define "reboot" critical true "request_critical_commands" false
    ∷ define "update_firmware" critical true "request_critical_commands" false
    ∷ []

unfoldable pub definition_in : List CommandDefinition → String → Option CommandDefinition
definition_in [] operation = none
definition_in (d ∷ rest) operation =
    if str_eq d.operation operation then some d else definition_in rest operation

-- `COMMAND_CATALOG.get(operation)`
unfoldable pub catalog_get : String → Option CommandDefinition
unfolding command_catalog definition_in
catalog_get operation = definition_in command_catalog operation

-- `STATUS_ORDER`; every status has an entry, so the default of `.get` is never used.
unfoldable pub status_order : Status → ℕ
status_order Status.requested = 0
status_order Status.awaiting_approval = 1
status_order Status.approved = 2
status_order Status.queued = 3
status_order Status.dispatching = 4
status_order Status.publish_accepted = 5
status_order Status.outcome_unknown = 5
status_order Status.broker_acknowledged = 6
status_order Status.gateway_received = 7
status_order Status.executing = 8
status_order Status.field_protocol_accepted = 9
status_order Status.action_initiated = 9
status_order Status.verification_pending = 10
status_order Status.verified = 11
status_order Status.action_completed = 11
status_order Status.policy_denied = 100
status_order Status.rejected = 100
status_order Status.failed = 100
status_order Status.expired = 100
status_order Status.timed_out = 100
status_order Status.cancelled = 100
status_order Status.reconciled_verified = 110
status_order Status.reconciled_not_applied = 110
status_order Status.reconciled_unresolved = 110

-- `status in TERMINAL_STATUSES`
unfoldable pub is_terminal : Status → Bool
is_terminal Status.policy_denied = true
is_terminal Status.rejected = true
is_terminal Status.failed = true
is_terminal Status.expired = true
is_terminal Status.timed_out = true
is_terminal Status.cancelled = true
is_terminal Status.verified = true
is_terminal Status.action_completed = true
is_terminal Status.reconciled_verified = true
is_terminal Status.reconciled_not_applied = true
is_terminal Status.reconciled_unresolved = true
is_terminal _ = false
