-- ===== src/Tests/Gateways.antt =====
-- Runs of the settings and the freshness of a Gateway.
use novena_hub.Prelude.{◌≡◌, ◌↔◌, ◌≤◌, refl, true, none, some, List, [], ◌∷◌, String, arith, Each}
use novena_hub.Json.{Json, Fields, Items}
use novena_hub.Freshness.{
  Thresholds, MonitoredDevice, FreshnessStatus, device_freshness_state, device_freshness_thresholds,
  device_offline_cutoff, compact_timesince,
}
use novena_hub.Freshness.Order.{offline_iff_cutoff}
use novena_hub.Gateways.Types.{EdgeGateway, returned}
use novena_hub.Gateways.Delivery.{ConfigStatus, EnvelopeBody, DeliverySettings, ConfigRow}
use novena_hub.Gateways.Delivery.Validate.{validate_gateway_config_payload}
use novena_hub.Gateways.Delivery.Queue.{
  QueueRequest, latest_revision, queue_gateway_config, record_config, new_config, new_outbox,
  build_signed_config_envelope,
}
use novena_hub.Gateways.Delivery.Dispatch.{
  publishing, begin_dispatch, claim_delivery, is_listed, is_claimable, sent, finish_dispatch,
}
use novena_hub.Gateways.Delivery.Acknowledge.{Attributes, conclude, acknowledge_gateway_config}
use novena_hub.Gateways.Delivery.Steps.{Step, Reach, IsSound, delivery-IsSound}
use novena_hub.Gateways.Delivery.Latest.{Queued, queue_gateway_config-Queued}
use novena_hub.Gateways.Delivery.Retried.{IsRetried, begin_dispatch-IsRetried}
use novena_hub.Gateways.Delivery.Guarded.{Guarded, acknowledge_gateway_config-Guarded}

abbrev limits : Thresholds
limits = record {
  delayed_multiplier = 2000;
  offline_multiplier = 3000;
  offline_min = 30;
  gateway_timeout = 120;
}

abbrev pub unit : EdgeGateway
unit = record {
  pk = 11;
  team_id = 7;
  serial_number = "GW-1";
  access_token = "token";
  status = "online";
  lifecycle_status = "active";
  last_seen = some 99000000;
  firmware_version = "2.1";
  config = Json.obj Fields.end;
  discovery_data = Json.obj Fields.end;
  mqtt_username = some "gw-1";
  mqtt_password = "hash";
  client_cert_pem = "";
  client_key_pem = "";
  mqtt_provisioning_status = "provisioned";
  mqtt_provisioning_error = "";
  credential_rotation_status = "not_started";
  last_bootstrap_seen_at = none;
  active_connectors = Json.arr Items.nil;
  connected_devices = Json.arr Items.nil;
  gateway_capabilities = "guided_setup_v1" ∷ [];
  remote_control_clock_ready = true;
  mqtt_connected = some true;
}

-- A sensor that is polled every five seconds and was last heard at the second 60.
abbrev sensor : MonitoredDevice
sensor = record {
  status = "online";
  last_telemetry_at = some 60000000;
  polling_interval = some 5000;
  gateway = some unit;
}

sensor_thresholds : device_freshness_thresholds limits sensor ≡ (15, 30)
unfolding device_freshness_thresholds
sensor_thresholds = refl

sensor_display : compact_timesince 60000000 7980000000 ≡ "2h"
unfolding compact_timesince
sensor_display = refl

sensor-IsDelayed : (device_freshness_state limits 80000000 sensor).status ≡ FreshnessStatus.delayed
unfolding device_freshness_state
sensor-IsDelayed = refl

offline_iff_cutoff_example :
    (device_freshness_state limits 95000000 sensor).status ≡ FreshnessStatus.offline
    ↔ 60000000 ≤ device_offline_cutoff limits 95000000 sensor
unfolding device_freshness_thresholds
offline_iff_cutoff_example =
    offline_iff_cutoff limits 95000000 sensor 60000000 refl refl (omega arith) (omega arith)

-- Functions in the place of the digest and the signature.
abbrev hash : Json → String
hash (Json.obj (Fields.field key v rest)) = key
hash _ = "h"

abbrev seal : EnvelopeBody → String × String
seal body = ("key-1", body.checksum)

abbrev delivery : DeliverySettings
delivery = record { intent_ttl = 86400; lease_seconds = 60; apply_timeout = 300 }

abbrev removal : QueueRequest
removal = record {
  action = "connector_remove";
  config = Json.obj (Fields.field "name" (Json.text "meter") Fields.end);
  setup_run = none;
  fresh_pk = 41;
  fresh_request_id = "r-1";
  fresh_idempotency_key = "k-1";
  now = 100000000;
}

abbrev again : QueueRequest
again = record removal { fresh_pk = 42; fresh_request_id = "r-2"; fresh_idempotency_key = "k-2" }

abbrev one_row : List ConfigRow
one_row = record_config hash seal delivery unit removal []

abbrev two_rows : List ConfigRow
two_rows = record_config hash seal delivery unit again one_row

port_is_checked :
    validate_gateway_config_payload unit "full_update" (
      Json.obj (
        Fields.field "gateway"
          (Json.obj (Fields.field "serial_number" (Json.text "GW-1") Fields.end))
          (Fields.field "mqtt"
            (Json.obj (
              Fields.field "host"
                (Json.text "broker")
                (Fields.field "port" (Json.text "88x3") Fields.end)))
            Fields.end)))
    ≡ some "The MQTT port must be an integer."
unfolding validate_gateway_config_payload
port_is_checked = refl

queues_one : queue_gateway_config hash seal delivery unit unit removal [] ≡ returned one_row
unfolding queue_gateway_config
queues_one = refl

queues_two : queue_gateway_config hash seal delivery unit unit again one_row ≡ returned two_rows
unfolding queue_gateway_config
queues_two = refl

queue_gateway_config-Queued_example : Queued 11 one_row two_rows
queue_gateway_config-Queued_example =
    queue_gateway_config-Queued hash seal delivery unit unit again one_row two_rows queues_two

delivery-IsSound_example : IsSound hash seal limits delivery two_rows
delivery-IsSound_example = delivery-IsSound hash seal limits delivery (
    Reach.step (Reach.step Reach.nothing (Step.queue unit unit removal queues_one))
      (Step.queue unit unit again queues_two))

abbrev pub first_row : ConfigRow
first_row =
    let config = new_config hash seal delivery unit 1 removal in
    record {
      config = record config {
        envelope_json = some (build_signed_config_envelope hash seal unit config);
      };
      outbox = new_outbox 100000000;
    }

abbrev claimed_row : ConfigRow
claimed_row = claim_delivery delivery 100000000 first_row

claims_first :
    begin_dispatch limits delivery 100000000 100000000 unit first_row ≡ publishing claimed_row
unfolding begin_dispatch new_config new_outbox
claims_first = refl

begin_dispatch-IsRetried_example :
    IsRetried 500000000 claimed_row.outbox
    × IsRetried 500000000 (finish_dispatch (sent 100000500) claimed_row).outbox
begin_dispatch-IsRetried_example =
    begin_dispatch-IsRetried limits delivery 100000000 100000000 unit first_row claimed_row
      (sent 100000500) 500000000 claims_first (omega arith) (omega arith)

abbrev success : Attributes
success = record {
  config_update_request_id = some "r-1";
  config_revision = some 1;
  config_checksum = some "name";
  config_idempotency_key = some "k-1";
  config_update_status = some "success";
  config_update_error = "";
  config_update_error_code = "";
  rollback_performed = Json.null;
  connector_results = Json.null;
  rollback_connector_results = Json.null;
}

abbrev applied_row : ConfigRow
applied_row = conclude 100000200 ConfigStatus.active success claimed_row

-- The Gateway answers before the worker has recorded the publication.
answers_first :
    acknowledge_gateway_config delivery 100000200 11 success (claimed_row ∷ [])
    ≡ returned (applied_row ∷ [])
unfolding acknowledge_gateway_config claim_delivery new_config
answers_first = refl

acknowledge_gateway_config-Guarded_example :
    Each
      (Guarded 11 (latest_revision 11 (claimed_row ∷ [])) success)
      (claimed_row ∷ [])
      (applied_row ∷ [])
acknowledge_gateway_config-Guarded_example =
    acknowledge_gateway_config-Guarded delivery 100000200 11 success (claimed_row ∷ [])
      (applied_row ∷ []) answers_first

-- The record of the publication then takes the applied settings back to published, and has them sent
-- again.
record_revives :
    ((finish_dispatch (sent 100000300) applied_row).config.status ≡ ConfigStatus.published)
    × IsRetried 500000000 (finish_dispatch (sent 100000300) applied_row).outbox
unfolding finish_dispatch is_listed is_claimable claim_delivery new_outbox conclude
record_revives = (refl, (refl, refl))
