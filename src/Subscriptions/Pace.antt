-- ===== src/Subscriptions/Pace.antt =====
-- apps/subscriptions/enforcement.py with apps/devices/freshness.py: proofs on the pace that a plan
-- allows.
use novena_hub.Prelude.{ℕ, ◌≤◌, ◌<◌, ◌*◌, ◌≡◌, false, Option, some, str_eq, arith}
use novena_hub.Json.{Json, Fields}
use novena_hub.Envelope.Int.{ℤ}
use novena_hub.Freshness.{
  Thresholds, MonitoredDevice, FreshnessStatus, expected_device_interval_seconds,
  device_freshness_thresholds, device_freshness_state, age,
}
use novena_hub.Freshness.Order.{young_is_live}
use novena_hub.Subscriptions.{
  SubscribedTeam, get_latency_limit_for_team, clamped, get_effective_polling_interval_seconds,
}

-- What an interval in whole seconds leaves room for, under the two thresholds.
expected-thresholds :
    (t : Thresholds) (d : MonitoredDevice) (a : ℕ)
    → 1000 ≤ t.offline_multiplier
    → a < expected_device_interval_seconds d
    → (a < (device_freshness_thresholds t d).0) × (a < (device_freshness_thresholds t d).1)
unfolding device_freshness_thresholds
expected-thresholds t d a h k =
    let expected = expected_device_interval_seconds d in
    let product : expected * 1000 ≤ expected * t.offline_multiplier = grind arith in
    (omega (arith, k), omega (arith, k, product))

interval-expected :
    (d : MonitoredDevice) (n a : ℕ)
    → d.polling_interval ≡ some n
    → a * 1000 < n
    → a < expected_device_interval_seconds d
unfolding expected_device_interval_seconds
interval-expected d n a e h = rw e (omega (arith, h))

module _ (to_float : Json → Option ℤ) where
  limit-interval :
      (team : SubscribedTeam) (template : Option ℤ) (config : Fields)
      → clamped (get_latency_limit_for_team team)
        ≤ get_effective_polling_interval_seconds to_float team template config
  unfolding get_effective_polling_interval_seconds
  limit-interval team template config = omega arith

  -- Where the offline multiplier is at least one, a device that is not in alarm and is polled at its
  -- effective interval is shown as live as long as its last sample is younger than the update
  -- interval of its team's plan, whatever its template and its own settings ask for.
  pub within_plan_is_live :
      (t : Thresholds) (now : ℕ) (d : MonitoredDevice) (last : ℕ) (team : SubscribedTeam)
      (template : Option ℤ) (config : Fields)
      → 1000 ≤ t.offline_multiplier
      → str_eq d.status "alarm" ≡ false
      → d.last_telemetry_at ≡ some last
      → d.polling_interval
        ≡ some (get_effective_polling_interval_seconds to_float team template config)
      → age last now * 1000 < clamped (get_latency_limit_for_team team)
      → (device_freshness_state t now d).status ≡ FreshnessStatus.live
  within_plan_is_live t now d last team template config multiplier calm sampled polled young =
      let short =
        interval-expected d _ (age last now) polled
          (omega (arith, young, limit-interval team template config)) in
      let (k, l) = expected-thresholds t d (age last now) multiplier short in
      young_is_live t now d last calm sampled k l
