-- ===== src/Freshness.antt =====
-- apps/devices/freshness.py: how recent the telemetry of a device and the heartbeat of a Gateway are.

pub mod Order
pub mod Heartbeats
use Prim.Native.String.{◌++◌ as append, slice}
use mathlib.Core.Logic.{ite}
use novena_hub.Prelude.{
  ℕ, zero, suc, ◌+◌, ◌-◌, ◌*◌, ◌/◌, ◌%◌, max, Bool, true, false, ◌&&◌, String, Option, none, some,
  ltb, leb, List, update_where, str_eq, seconds, if◌then◌else◌,
}
use novena_hub.Envelope.Int.{ℤ, pos, minus}
use novena_hub.Gateways.Types.{EdgeGateway}

-- The settings of the thresholds; the two multipliers are floats, counted in thousandths.
pub record Thresholds : Type 0 where
  pub delayed_multiplier : ℕ
  pub offline_multiplier : ℕ
  pub offline_min : ℕ
  pub gateway_timeout : ℕ

-- What freshness reads of a `Device`. The interval is what `get_effective_polling_interval_seconds`
-- returns, a float, counted in thousandths; `none` when the call raises a `ValueError`.
pub record MonitoredDevice : Type 0 where
  pub status : String
  pub last_telemetry_at : Option ℕ
  pub polling_interval : Option ℕ
  pub gateway : Option EdgeGateway

pub data FreshnessStatus : Type 0 where
  live delayed offline alarm maintenance : FreshnessStatus

-- `FreshnessState`
pub record FreshnessState : Type 0 where
  pub status : FreshnessStatus
  pub label : String
  pub display : String
  pub age_seconds : Option ℤ

-- `FreshnessState.tone`
unfoldable pub tone : FreshnessStatus → String
tone live = "green"
tone delayed = "amber"
tone offline = "gray"
tone alarm = "red"
tone maintenance = "amber"

-- The decimal_text digits of a number; the fuel bounds how many there are.
unfoldable pub decimal_text : ℕ → ℕ → String
decimal_text zero n = ""
decimal_text (suc fuel) n =
    let rest = decimal_text fuel (n / 10) in
    if ltb n 10
    then slice "0123456789" n (suc n)
    else append rest (slice "0123456789" (n % 10) (suc (n % 10)))

-- Days counted from year 1 have at most seven digits.
abbrev counted : ℕ → String → String
counted n unit = append (decimal_text 20 n) unit

-- `compact_timesince`; the texts of a moment that is not given are the callers'.
unfoldable pub compact_timesince : ℕ → ℕ → String
unfolding decimal_text
compact_timesince dt now =
    let secs = (now - dt) / 1000000 in
    if ltb secs 60
    then counted secs "s"
    else if ltb (secs / 60) 60
    then counted (secs / 60) "m"
    else if ltb (secs / 60 / 60) 24
    then counted (secs / 60 / 60) "h"
    else counted (secs / 60 / 60 / 24) "d"

-- `int((now - last_seen).total_seconds())`, which rounds towards zero.
abbrev pub signed_age : ℕ → ℕ → ℤ
signed_age last now = minus ((now - last) / 1000000) ((last - now) / 1000000)

-- `max(0, int((now - last_seen).total_seconds()))`
abbrev pub age : ℕ → ℕ → ℕ
age last now = (now - last) / 1000000

-- `math.ceil` of a number of thousandths.
abbrev ceil : ℕ → ℕ
ceil n = (n + 999) / 1000

-- `expected_device_interval_seconds`
unfoldable pub expected_device_interval_seconds : MonitoredDevice → ℕ
expected_device_interval_seconds d = elim d.polling_interval [ none ↦ 5 | some n ↦ max 1 (ceil n) ]

-- `device_freshness_thresholds`: after how many seconds a device is delayed, and offline.
unfoldable pub device_freshness_thresholds : Thresholds → MonitoredDevice → ℕ × ℕ
unfolding expected_device_interval_seconds
device_freshness_thresholds t d =
    let expected = expected_device_interval_seconds d in
    (
      max (expected * t.delayed_multiplier / 1000) (expected + 10),
      max t.offline_min (expected * t.offline_multiplier / 1000),
    )

abbrev ago : String → ℕ → ℕ → String
ago start last now = append start (append (compact_timesince last now) " ago")

-- The state of a device that is in alarm.
unfoldable pub alarm_state : ℕ → Option ℕ → FreshnessState
unfolding compact_timesince
alarm_state now (some last) = record {
  status = alarm;
  label = "Alarm";
  display = ago "Alarm - last sample " last now;
  age_seconds = some (signed_age last now);
}
alarm_state now none = record {
  status = alarm;
  label = "Alarm";
  display = "Alarm - no samples yet";
  age_seconds = none;
}

-- The state of a device that is not in alarm.
unfoldable pub sample_state : Thresholds → ℕ → MonitoredDevice → Option ℕ → FreshnessState
unfolding compact_timesince device_freshness_thresholds
sample_state t now d none = record {
  status = offline;
  label = "Offline";
  display = "Offline - no samples yet";
  age_seconds = none;
}
sample_state t now d (some last) =
    if leb (device_freshness_thresholds t d).1 (age last now)
    then record {
      status = offline;
      label = "Offline";
      display = ago "Offline - last sample " last now;
      age_seconds = some (pos (age last now));
    }
    else if leb (device_freshness_thresholds t d).0 (age last now)
    then record {
      status = delayed;
      label = "Delayed";
      display = ago "Delayed - last sample " last now;
      age_seconds = some (pos (age last now));
    }
    else record {
      status = live;
      label = "Live";
      display = ago "Live - updated " last now;
      age_seconds = some (pos (age last now));
    }

-- `device_freshness_state`
unfoldable pub device_freshness_state : Thresholds → ℕ → MonitoredDevice → FreshnessState
unfolding alarm_state sample_state
device_freshness_state t now d =
    if str_eq d.status "alarm"
    then alarm_state now d.last_telemetry_at
    else sample_state t now d d.last_telemetry_at

-- `device_offline_cutoff`
unfoldable pub device_offline_cutoff : Thresholds → ℕ → MonitoredDevice → ℕ
unfolding device_freshness_thresholds
device_offline_cutoff t now d = now - seconds (device_freshness_thresholds t d).1

-- The state of a Gateway under maintenance.
unfoldable pub maintenance_state : ℕ → Option ℕ → FreshnessState
unfolding compact_timesince
maintenance_state now (some last) = record {
  status = maintenance;
  label = "Gateway maintenance";
  display = ago "Gateway maintenance - heartbeat " last now;
  age_seconds = some (signed_age last now);
}
maintenance_state now none = record {
  status = maintenance;
  label = "Gateway maintenance";
  display = "Gateway maintenance - no heartbeat yet";
  age_seconds = none;
}

-- The state of a Gateway that is not under maintenance.
unfoldable pub heartbeat_state : Thresholds → ℕ → EdgeGateway → Option ℕ → FreshnessState
unfolding compact_timesince
heartbeat_state t now g none = record {
  status = offline;
  label = "Gateway offline";
  display = "Gateway offline - no operational heartbeat yet";
  age_seconds = none;
}
heartbeat_state t now g (some last) =
    if str_eq g.status "online" && leb (age last now) t.gateway_timeout
    then record {
      status = live;
      label = "Gateway online";
      display = ago "Gateway online - heartbeat " last now;
      age_seconds = some (pos (age last now));
    }
    else if str_eq g.status "offline" && str_eq g.firmware_version ""
    then record {
      status = offline;
      label = "Gateway offline";
      display = "Gateway offline - operational heartbeat missing";
      age_seconds = some (pos (age last now));
    }
    else record {
      status = offline;
      label = "Gateway offline";
      display = ago "Gateway offline - last heartbeat " last now;
      age_seconds = some (pos (age last now));
    }

abbrev pub is_live : FreshnessStatus → Bool
is_live live = true
is_live _ = false

abbrev pub is_offline : FreshnessStatus → Bool
is_offline offline = true
is_offline _ = false

-- `gateway_freshness_state`
unfoldable pub gateway_freshness_state : Thresholds → ℕ → EdgeGateway → FreshnessState
unfolding maintenance_state heartbeat_state
gateway_freshness_state t now g =
    if str_eq g.status "maintenance"
    then maintenance_state now g.last_seen
    else heartbeat_state t now g g.last_seen

-- `device_gateway_context_display`; the two states read the clock one after the other.
unfoldable pub device_gateway_context_display : Thresholds → ℕ → ℕ → MonitoredDevice → String
unfolding device_freshness_state gateway_freshness_state
device_gateway_context_display t now read_at d = elim d.gateway [
  | none ↦ ""
  | some g ↦
      let shown = gateway_freshness_state t read_at g in
      if is_offline (device_freshness_state t now d).status && is_live shown.status
      then "Gateway online - device offline"
      else shown.display
]
