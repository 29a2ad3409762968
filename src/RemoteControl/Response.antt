-- ===== src/RemoteControl/Response.antt =====
-- apps/telemetry/management/commands/mqtt_consumer.py: `_handle_rpc_response`, with
-- `sync_device_command_from_rpc` of apps/devices/services.py and `check_rpc_timeouts` of
-- apps/devices/tasks.py.
pub mod Sync
pub mod Handle
pub mod Tables
pub mod Mismatch
pub mod Reconcile
pub mod Policy
use novena_hub.Prelude.{
  ℕ, Bool, true, false, not, ◌&&◌, ◌||◌, String, Option, none, some, List, [], ◌∷◌, str_eq,
  contains, is_some, if◌then◌else◌,
}
use novena_hub.Json.{Json}
use novena_hub.RemoteControl.Types.{Status, CommandRow}
use novena_hub.RemoteControl.Governance.{Governance}
use novena_hub.RemoteControl.Protocol.{gateway_stage_to_command_status}

-- `RpcCommand`; an identifier is its text.
pub record Rpc : Type 0 where
  pub gateway : ℕ
  pub request_id : String
  pub method : String
  pub sent_at : ℕ
  pub status : String
  pub response_stage : String
  pub result : Json
  pub error_message : String
  pub responded_at : Option ℕ

-- `DeviceCommand`: the columns that a response writes.
pub record Mirror : Type 0 where
  pub status : String
  pub response_payload : Json
  pub error_message : String
  pub executed_at : Option ℕ

-- An RPC with the command it belongs to and the device command that mirrors it, and the governing
-- tables.
pub record Exchange : Type 0 where
  pub rpc : Rpc
  pub governed : Option CommandRow
  pub mirror : Option Mirror
  pub governance : Governance

-- What a Gateway answers; a key that is absent is `none`, and the result null.
pub record Answer : Type 0 where
  pub request_id : Option String
  pub status : Option String
  pub stage : Option String
  pub method : Option String
  pub result : Json
  pub error : String

abbrev pub or_default : Option String → String → String
or_default none default = default
or_default (some text) default = text

-- `payload.get("status", "unknown")`
unfoldable pub response_status : Answer → String
response_status a = or_default a.status "unknown"

-- `payload.get("stage", response_status)`
unfoldable pub response_stage : Answer → String
unfolding response_status
response_stage a = or_default a.stage (response_status a)

-- `allowed_stage`: whether a stage is one that the method can reach.
unfoldable pub allowed_stage : String → String → Bool
unfolding gateway_stage_to_command_status
allowed_stage method stage =
    if str_eq stage "field_protocol_accepted" || str_eq stage "field_execution_verified"
    then str_eq method "write_device"
    else if str_eq stage "ota_initiated"
    then str_eq method "update_firmware"
    else if str_eq stage "gateway_action_completed"
    then not (str_eq method "write_device" || str_eq method "update_firmware")
    else is_some (gateway_stage_to_command_status stage)
