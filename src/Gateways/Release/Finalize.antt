-- ===== src/Gateways/Release/Finalize.antt =====
-- apps/devices/gateway_release.py: `_finalize_release`.
use novena_hub.Prelude.{
  ℕ, Bool, false, String, Option, none, some, List, [], any, update_first, map, if◌then◌else◌, ◌==◌,
  ◌&&◌, refers,
}
use novena_hub.Json.{Json, Fields, Items, field, end, text}
use novena_hub.RemoteControl.Types.{Status, EventPayload, CommandRow}
use novena_hub.RemoteControl.Catalog.{is_terminal}
use novena_hub.RemoteControl.Transition.{Request, no_updates, transition_command}
use novena_hub.Gateways.Types.{EdgeGateway}
use novena_hub.Gateways.Release.{
  ReleaseStatus, ReleaseRequest, GatewayActivationStatus, GatewayActivation, Inventory, Ownership,
  is_completed_release,
}

-- What `_cancel_pending_remote_commands` asks of `transition_command`.
abbrev pub cancellation : Request
cancellation = record {
  to_status = Status.cancelled;
  event_type = "gateway_release_cancelled";
  actor = none;
  evidence = field "reason" (text "Gateway release requested") end;
  updates = record no_updates {
    error_code = some "gateway_released";
    error_message = some "The Gateway was released.";
  };
}

-- `gateway.activations.exclude(status="acknowledged").update(...)`
unfoldable pub supersede_activation : GatewayActivation → GatewayActivation
supersede_activation a = elim a.status [
  | GatewayActivationStatus.acknowledged ↦ a
  | _ ↦ record a {
    status = GatewayActivationStatus.superseded;
    last_error = "Gateway ownership was released.";
  }
]

-- `gateway.activations.update(encrypted_mqtt_password="")`, after that.
unfoldable pub close_activation : GatewayActivation → GatewayActivation
unfolding supersede_activation
close_activation a = record (supersede_activation a) { encrypted_mqtt_password = "" }

unfoldable pub free_inventory : Inventory → Inventory
free_inventory i = record i {
  status = "released";
  claimed_by_team = none;
  claimed_at = none;
  gateway = none;
}

-- The row of the Gateway after its release, with a fresh token.
unfoldable pub wipe_gateway : String → EdgeGateway → EdgeGateway
wipe_gateway token g = record g {
  status = "offline";
  lifecycle_status = "released";
  mqtt_username = none;
  mqtt_password = "";
  client_cert_pem = "";
  client_key_pem = "";
  access_token = token;
  mqtt_provisioning_status = "revoked";
  mqtt_provisioning_error = "";
  credential_rotation_status = "not_started";
  discovery_data = Json.obj Fields.end;
  config = Json.obj Fields.end;
  connected_devices = Json.arr Items.nil;
  active_connectors = Json.arr Items.nil;
  last_seen = none;
  last_bootstrap_seen_at = none;
}

unfoldable pub complete_release : ℕ → ReleaseRequest → ReleaseRequest
complete_release now r = record r {
  status = ReleaseStatus.completed;
  completed_at = some now;
  lease_expires_at = none;
  last_error = "";
}

abbrev pub is_deleted : List ℕ → Option ℕ → Bool
is_deleted devices none = false
is_deleted devices (some pk) = any (λ d. d == pk) devices

-- `on_delete=models.SET_NULL` of the device of a command.
unfoldable pub detach : List ℕ → CommandRow → CommandRow
detach devices row =
    if is_deleted devices row.command.device_id
    then record row { command = record row.command { device_id = none } }
    else row

module _ (digest : EventPayload → ℕ) where
  unfoldable pub cancel_pending : CommandRow → CommandRow
  unfolding is_terminal transition_command
  cancel_pending row =
      if is_terminal row.command.status then row else (transition_command digest cancellation row).0

  -- The writes of `_finalize_release`. The configurations are superseded and then deleted with their
  -- outboxes, so that no trace of the update remains.
  unfoldable pub finalize_writes : ℕ → String → ℕ → Ownership → Ownership
  unfolding cancel_pending detach close_activation free_inventory wipe_gateway complete_release
  finalize_writes now token pk s = record s {
    commands = map (λ row. detach s.devices (cancel_pending row)) s.commands;
    activations = map close_activation s.activations;
    configs = [];
    logs = [];
    rpc_commands = [];
    devices = [];
    inventory = update_first (λ i. refers i.gateway s.gateway.pk) free_inventory s.inventory;
    gateway = wipe_gateway token s.gateway;
    releases = update_first (λ r. r.pk == pk) (complete_release now) s.releases;
  }

  -- `_finalize_release`: one that is completed already is left alone.
  unfoldable pub finalize_release : ℕ → String → ℕ → Ownership → Ownership
  unfolding finalize_writes is_completed_release
  finalize_release now token pk s =
      if any (λ r. (r.pk == pk) && is_completed_release r.status) s.releases
      then s
      else finalize_writes now token pk s
