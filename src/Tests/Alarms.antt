-- ===== src/Tests/Alarms.antt =====
-- Runs of the alert rules.
use novena_hub.Prelude.{ℕ, ◌*◌, ◌≡◌, refl, true, false, none, some, List, [], ◌∷◌}
use novena_hub.Envelope.Int.{pos}
use novena_hub.Freshness.{Thresholds, MonitoredDevice}
use novena_hub.Alerts.{AlertRule, Alert, Point, new_alert}
use novena_hub.Alerts.Window.{Reading, evaluate_condition, check_alerts_for_payload}
use novena_hub.Alerts.Sustained.{IsSustained, evaluate_condition-IsSustained}

abbrev limits : Thresholds
limits = record {
  delayed_multiplier = 2000;
  offline_multiplier = 3000;
  offline_min = 30;
  gateway_timeout = 120;
}

abbrev boiler : MonitoredDevice
boiler = record {
  status = "online";
  last_telemetry_at = some 95000000;
  polling_interval = some 5000;
  gateway = none;
}

-- Above fifty degrees for twenty seconds.
abbrev hot : AlertRule
hot = record {
  pk = 3;
  team = 7;
  device = some 21;
  site = none;
  telemetry_key = "temperature";
  condition = "gt";
  threshold = pos 50000000;
  duration_seconds = pos 20;
  is_active = true;
  cooldown_minutes = pos 15;
}

abbrev degrees : ℕ → ℕ → Point
degrees t n = record {
  device = 21;
  key = "temperature";
  timestamp = t * 1000000;
  value_numeric = some (pos (n * 1000000));
  value_bool = none;
}

abbrev reading : Reading
reading = record {
  thresholds = limits;
  pk = 21;
  site = 5;
  device = boiler;
  key = "temperature";
  telemetry = degrees 95 60 ∷ degrees 75 51 ∷ degrees 85 55 ∷ degrees 60 20 ∷ [];
  now = 96000000;
  read_at = 96000100;
}

holds : evaluate_condition hot reading (pos 60000000) ≡ true
unfolding evaluate_condition
holds = refl

-- A value below the threshold inside the window ends it.
broken :
    evaluate_condition hot
      (record reading { telemetry = degrees 90 49 ∷ reading.telemetry })
      (pos 60000000)
    ≡ false
unfolding evaluate_condition
broken = refl

evaluate_condition-IsSustained_example : IsSustained hot reading 76000000
evaluate_condition-IsSustained_example =
    evaluate_condition-IsSustained hot reading (pos 60000000) 19 holds refl

abbrev raised : List Alert
raised = new_alert 96000100 hot 21 (pos 60000000) ∷ []

-- The first reading raises the alert, and the next one, within the cooldown, no other.
raises_once :
    (check_alerts_for_payload reading (some (pos 60000000)) (hot ∷ []) [] ≡ raised)
    × (check_alerts_for_payload reading (some (pos 60000000)) (hot ∷ []) raised ≡ raised)
unfolding check_alerts_for_payload
raises_once = (refl, refl)
