-- ===== src/RemoteControl/Protocol.antt =====
-- apps/devices/remote_control_protocol.py: the protocol contract of Hub and Gateway.
pub mod Eligibility
use Prim.Native.String.{◌++◌}
use novena_hub.Prelude.{
  ℕ, Bool, true, false, not, String, Option, none, some, List, [], ◌∷◌, str_eq, ◌==◌, select,
  contains, if◌then◌else◌,
}
use novena_hub.RemoteControl.Types.{Status, Gateway, Denial}

abbrev pub remote_control_protocol_version : ℕ
remote_control_protocol_version = 1

-- `sorted(REQUIRED_STATE_CHANGE_CAPABILITIES)`
abbrev pub required_state_change_capabilities : List String
required_state_change_capabilities =
    "governed_commands_v1" ∷ "idempotent_replay_v1" ∷ "lifecycle_stages_v1" ∷ "local_writeback_v1"
    ∷ []

-- `LEGACY_DEVICE_METHOD_MAP`, and the `ValueError` of a method that it lacks as `none`.
unfoldable pub canonical_device_operation : String → Option String
canonical_device_operation method =
    if str_eq method "read"
    then some "read_device"
    else if str_eq method "read_device"
    then some "read_device"
    else if str_eq method "write"
    then some "write_device"
    else if str_eq method "write_device"
    then some "write_device"
    else none

-- `GATEWAY_STAGE_TO_COMMAND_STATUS`
abbrev gateway_stages : List (String × Status)
gateway_stages =
    ("gateway_received", Status.gateway_received)
    ∷ ("diagnostic_completed", Status.verified)
    ∷ ("executing", Status.executing)
    ∷ ("field_protocol_accepted", Status.field_protocol_accepted)
    ∷ ("field_execution_verified", Status.verified)
    ∷ ("ota_initiated", Status.action_initiated)
    ∷ ("gateway_action_completed", Status.action_completed)
    ∷ ("rejected", Status.rejected)
    ∷ ("failed", Status.failed)
    ∷ []

abbrev stage_in : List (String × Status) → String → Option Status
stage_in [] stage = none
stage_in ((name, status) ∷ rest) stage =
    if str_eq name stage then some status else stage_in rest stage

-- `GATEWAY_STAGE_TO_COMMAND_STATUS.get(stage)`
unfoldable pub gateway_stage_to_command_status : String → Option Status
gateway_stage_to_command_status stage = stage_in gateway_stages stage

-- `sorted(REQUIRED_STATE_CHANGE_CAPABILITIES - advertised_capabilities(gateway))`
unfoldable pub missing_capabilities : List String → List String
missing_capabilities advertised =
    select (λ c. not (contains advertised c)) required_state_change_capabilities

abbrev join : List String → String
join [] = ""
join (s ∷ []) = s
join (s ∷ rest) = s ++ (", " ++ join rest)

missing_denial : List String → Denial
missing_denial missing = record {
  code = "capability_not_advertised";
  message =
      "The Gateway is missing required remote-control capabilities: " ++ (join missing ++ ".");
}

unfoldable pub writeback_error : Bool → Option Denial
writeback_error true = none
writeback_error false = some (record {
  code = "writeback_not_advertised";
  message = "The Gateway has not explicitly enabled local write-back.";
})

unfoldable pub missing_error : List String → Bool → Option Denial
unfolding writeback_error missing_denial
missing_error [] writeback = writeback_error writeback
missing_error (c ∷ rest) writeback = some (missing_denial (c ∷ rest))

unfoldable pub state_change_capability_error : Gateway → Option Denial
unfolding missing_error missing_capabilities
state_change_capability_error gateway =
    if gateway.remote_control_protocol_version == remote_control_protocol_version
    then missing_error (missing_capabilities gateway.remote_control_capabilities)
        gateway.remote_control_local_writeback_enabled
    else some (record {
      code = "protocol_not_advertised";
      message = "The Gateway has not advertised governed remote-control protocol version 1.";
    })
