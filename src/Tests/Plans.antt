-- ===== src/Tests/Plans.antt =====
-- Runs of the plans of teams.
use novena_hub.Prelude.{◌≡◌, refl, true, false, Option, none, some, [], ◌∷◌, arith}
use novena_hub.Json.{Json, Fields, field, end}
use novena_hub.Envelope.Int.{ℤ, pos}
use novena_hub.Freshness.{Thresholds, MonitoredDevice, FreshnessStatus, device_freshness_state}
use novena_hub.Subscriptions.{
  clamped, get_latency_limit_for_team, ProductMetadata, SubscribedTeam, can_add_device,
  can_add_gateway, is_unlimited, is_unbounded, below, get_device_limit_for_team,
  get_gateway_limit_for_team, get_product_metadata_for_team, get_effective_polling_interval_seconds,
}
use novena_hub.Subscriptions.Pace.{within_plan_is_live}

abbrev professional : ProductMetadata
professional = record {
  gateway_limit = pos 9999;
  device_limit = pos 9999;
  retention_days = pos 90;
  telemetry_interval_seconds = pos 30000;
}

abbrev subscribed : SubscribedTeam
subscribed = record {
  subscription = true;
  has_active_subscription = true;
  items = some (professional ∷ []);
}

-- The device asks for a sample every five seconds.
abbrev config : Fields
config = field "requested_polling_interval" (Json.int 5) end

abbrev whole : Json → Option ℤ
whole x = some (pos 5000)

abbrev defaults : Thresholds
defaults = record {
  delayed_multiplier = 2000;
  offline_multiplier = 3000;
  offline_min = 15;
  gateway_timeout = 90;
}

abbrev meter : MonitoredDevice
meter = record {
  status = "online";
  last_telemetry_at = some 1000000000;
  polling_interval =
      some (get_effective_polling_interval_seconds whole subscribed (some (pos 5000)) config);
  gateway = none;
}

-- The limit of 9999 is one of many for devices, and none for gateways.
full_of_devices : can_add_device subscribed 9999 ≡ false
unfolding can_add_device is_unlimited get_device_limit_for_team get_product_metadata_for_team below
full_of_devices = refl

room_for_gateways : can_add_gateway subscribed 9999 ≡ true
unfolding can_add_gateway is_unlimited get_gateway_limit_for_team get_product_metadata_for_team
    is_unbounded
room_for_gateways = refl

within_plan_is_live_example :
    (device_freshness_state defaults 1029000000 meter).status ≡ FreshnessStatus.live
unfolding clamped get_latency_limit_for_team get_product_metadata_for_team
within_plan_is_live_example =
    within_plan_is_live whole defaults 1029000000 meter 1000000000 subscribed (some (pos 5000))
      config (omega arith) refl refl refl (ground arith)
