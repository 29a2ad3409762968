-- ===== src/Tests/Releases.antt =====
-- Runs of the release of a Gateway.
use novena_hub.Prelude.{◌≡◌, refl, true, none, some, [], ◌∷◌, Each}
use novena_hub.RemoteControl.Types.{Outbox, OutboxStatus}
use novena_hub.RemoteControl.Catalog.{catalog_get}
use novena_hub.RemoteControl.Events.{append_event}
use novena_hub.RemoteControl.Revalidation.{dispatch_revalidation_error, defined_error}
use novena_hub.RemoteControl.Dispatch.{default_settings}
use novena_hub.RemoteControl.Dispatch.Claim.{claimed_as, claim_row, take_lease}
use novena_hub.Gateways.Release.{ReleaseStatus, ReleaseRequest, Ownership, GatewayActivationStatus}
use novena_hub.Gateways.Release.Finalize.{cancel_pending}
use novena_hub.Gateways.Release.Dispatch.{ReleaseSettings, Effects, dispatch_gateway_release}
use novena_hub.Gateways.Release.Confirmed.{Ends, dispatch_gateway_release-Ends}
use novena_hub.Gateways.Release.Emptied.{IsWhole, dispatch_gateway_release-IsWhole}
use novena_hub.Tests.Fixtures.{tag, ping_row, waiting, ctx}
use novena_hub.Tests.Gateways.{unit, first_row}

abbrev reset_release : ReleaseRequest
reset_release = record {
  pk = 51;
  request_id = "rel-1";
  requested_by = some 1;
  status = ReleaseStatus.retry;
  attempt_count = 1;
  next_attempt_at = 1000;
  claimed_at = some 0;
  lease_expires_at = none;
  last_error = "";
  edge_reset_at = some 900;
  completed_at = none;
}

abbrev owned : Ownership
owned = record {
  gateway = record unit { lifecycle_status = "release_pending" };
  created_at = 0;
  releases = reset_release ∷ [];
  commands = ping_row ∷ [];
  activations =
      record {
        status = GatewayActivationStatus.delivered;
        last_error = "";
        encrypted_mqtt_password = "cipher";
      }
      ∷ [];
  configs = first_row ∷ [];
  logs = 1 ∷ [];
  rpc_commands = [];
  devices = 21 ∷ [];
  inventory =
      record {
        serial_number = "GW-1";
        status = "claimed";
        gateway = some 11;
        claimed_by_team = some 7;
        claimed_at = some 0;
      }
      ∷ [];
}

abbrev strict : ReleaseSettings
strict = record { lease_seconds = 60; retry_max_seconds = 300; provisioning_required = true }

abbrev revoked : Effects
revoked = record {
  publish_gateway_release = none;
  clear_gateway_retained_policy = none;
  deprovision_gateway_mqtt = none;
  recorded_at = 2000;
  token = "fresh";
}

abbrev released : Ownership
released = dispatch_gateway_release tag strict revoked 1500 51 owned

releases_gateway :
    (released.gateway.lifecycle_status ≡ "released")
    × (released.inventory
        ≡ record {
          serial_number = "GW-1";
          status = "released";
          gateway = none;
          claimed_by_team = none;
          claimed_at = none;
        }
          ∷ [])
unfolding dispatch_gateway_release
releases_gateway = (refl, refl)

dispatch_gateway_release-Ends_example : Each (Ends strict revoked) owned.releases released.releases
dispatch_gateway_release-Ends_example =
    dispatch_gateway_release-Ends tag strict revoked 1500 51 owned

dispatch_gateway_release-IsWhole_example : IsWhole strict revoked 1500 51 owned released
dispatch_gateway_release-IsWhole_example =
    dispatch_gateway_release-IsWhole tag strict revoked 1500 51 owned

abbrev retried : Outbox
retried = record waiting { status = OutboxStatus.retry; attempt_count = 1 }

-- The release cancels the command, but its outbox is still due, and a worker claims it.
cancelled_is_claimed :
    claim_row tag default_settings 1 1 ctx (cancel_pending tag ping_row)
    ≡ claimed_as 2 (take_lease tag default_settings 1 retried (cancel_pending tag ping_row))
unfolding claim_row cancel_pending append_event dispatch_revalidation_error catalog_get
    defined_error
cancelled_is_claimed = refl
