-- ===== src/Freshness/Heartbeats.antt =====
-- apps/devices/tasks.py: the tasks that mark devices and Gateways offline.
use novena_hub.Prelude.{
  ℕ, ◌-◌, Bool, true, false, ◌&&◌, Option, none, some, List, ltb, str_eq, seconds, update_where,
}
use novena_hub.Gateways.Types.{EdgeGateway}
use novena_hub.Freshness.{Thresholds, MonitoredDevice, device_offline_cutoff}

-- Whether `check_device_heartbeats` takes a device for a stale one.
unfoldable pub is_stale : Thresholds → ℕ → MonitoredDevice → Bool
unfolding device_offline_cutoff
is_stale t now d = elim d.last_telemetry_at [
  | none ↦ true
  | some last ↦ ltb last (device_offline_cutoff t now d)
]

-- `check_device_heartbeats`: the devices after the task, in one update of the stale ones.
unfoldable pub check_device_heartbeats :
    Thresholds → ℕ → List MonitoredDevice → List MonitoredDevice
unfolding is_stale
check_device_heartbeats t now =
    update_where (λ d. str_eq d.status "online" && is_stale t now d)
      (λ d. record d { status = "offline" })

-- `last_seen__lt=cutoff`, which a missing time does not meet.
abbrev is_before : Option ℕ → ℕ → Bool
is_before none cutoff = false
is_before (some t) cutoff = ltb t cutoff

-- `check_gateway_heartbeats`
unfoldable pub check_gateway_heartbeats : Thresholds → ℕ → List EdgeGateway → List EdgeGateway
check_gateway_heartbeats t now =
    update_where
      (λ g. str_eq g.status "online" && is_before g.last_seen (now - seconds t.gateway_timeout))
      (λ g. record g { status = "offline" })
