-- ===== src/RemoteControl/Request.antt =====
-- apps/devices/remote_control.py: `request_remote_command`. The resolution of the target register
-- and of the effective envelope (`resolve_device_params`, `effective_control_envelope`,
-- `validate_control_value`) is an argument.
pub mod Record
pub mod Submit
pub mod Numbering
pub mod Recorded
pub mod Laws
use novena_hub.Prelude.{
  ℕ, ◌+◌, min, max, Bool, true, false, not, ◌&&◌, ◌||◌, String, Option, none, some, List, [], ◌∷◌,
  str_eq, ◌==◌, refers, option_eq, is_some, contains, seconds, if◌then◌else◌,
}
use novena_hub.Json.{Json, Fields, field, end, text}
use novena_hub.Teams.Types.{Team, User, Membership, RemoteControlMode}
use novena_hub.Teams.Roles.{has_permission}
use novena_hub.RemoteControl.Types.{
  Source, Status, Command, CommandRow, EventPayload, Params, Gateway, Device, Denial, Outbox,
}
use novena_hub.RemoteControl.Catalog.{CommandDefinition, catalog_get}
use novena_hub.RemoteControl.Protocol.{state_change_capability_error}
use novena_hub.RemoteControl.Events.{actor_snapshot, actor_of, append_event}
use novena_hub.RemoteControl.Revalidation.{deny, is_controlled, or_else}
use novena_hub.Readiness.Approve.{Binding, new_outbox, create_approval}

-- What is known of a target once its register and its envelope are resolved, or as far as they
-- were when the resolution was refused.
pub record Resolution : Type 0 where
  pub params : Params
  pub normalized : Json
  pub template_revision : ℕ
  pub commissioning_revision : ℕ
  pub policy_revision : ℕ
  pub policy_checksum : String
  pub approval_required : Bool

pub data Resolved : Type 0 where
  resolved : Resolution → Resolved
  refused : Denial → Resolution → Resolved

-- The arguments of a request.
pub record Asked : Type 0 where
  pub operation : String
  pub requested_by : Option User
  pub params : Params
  pub device : Option Device
  pub command_key : String
  pub value : Json
  pub normalized : Json
  pub reason : String
  pub source : Source
  pub ttl_seconds : ℕ

-- The exceptions that nothing is written for, or the row and the denial that is raised after it.
pub data Answer : Type 0 where
  raised : Denial → Answer
  recorded : CommandRow → Option Denial → Answer

abbrev is_user : Source → Bool
is_user Source.user = true
is_user _ = false

abbrev pub target_site : Gateway → Option Device → Option ℕ
target_site gateway none = gateway.site
target_site gateway (some d) = d.site

-- `_has_permission`
unfoldable pub user_has_permission : List Membership → Option User → Team → String → Option ℕ → Bool
user_has_permission members none team permission site = false
user_has_permission members (some u) team permission site =
    if u.is_authenticated then has_permission members u (some team) permission site else false

abbrev is_quarantined : Gateway → Bool
is_quarantined g = contains ("release_pending" ∷ "released" ∷ []) g.lifecycle_status

abbrev needs_clock : String → Bool
needs_clock operation =
    contains
      ("scan_devices" ∷ "deployment_preflight" ∷ "deployment_discover" ∷ "deployment_validate" ∷ [])
      operation

-- The chain of `if` and `elif` that computes `denial`.
unfoldable pub policy_denial :
    List Membership → CommandDefinition → Team → Gateway → Asked → Option Denial
policy_denial members definition team gateway asked =
    if is_quarantined gateway
    then deny "gateway_quarantined"
        "This Gateway is being securely released and cannot accept commands."
    else if is_user asked.source
        && not (
            user_has_permission members asked.requested_by team definition.permission
              (target_site gateway asked.device))
    then deny "permission_denied" "You do not have permission to request this command."
    else if needs_clock asked.operation && not gateway.remote_control_clock_ready
    then deny "gateway_clock_not_ready"
        "The Gateway clock is still synchronizing. Wait a moment, then retry."
    else if definition.state_changing && not (is_controlled team.remote_control_mode)
    then deny "monitoring_only" "Remote state-changing commands are disabled for this team."
    else if definition.state_changing
    then state_change_capability_error gateway
    else none

abbrev foreign : Gateway → Option Device → Bool
foreign g none = false
foreign g (some d) = not (d.team_id == g.team_id) || not (refers d.gateway_id g.pk)

-- The exceptions that are raised before anything is written.
unfoldable pub shape_error : CommandDefinition → Gateway → Asked → Option Denial
shape_error definition gateway asked =
    if definition.device_required && not (is_some asked.device)
    then deny "device_required" "This operation requires an exact device target."
    else if str_eq asked.operation "write_device" && str_eq asked.command_key ""
    then deny "command_key_required" "A canonical writable command key is required."
    else if foreign gateway asked.device
    then deny "target_mismatch" "The target device does not belong to this Gateway."
    else none
