-- ===== src/Alerts/Window.antt =====
-- apps/alerts/services.py: `evaluate_condition` and `check_alerts_for_payload`.
use novena_hub.Prelude.{
  ℕ, zero, suc, ◌+◌, ◌-◌, Bool, true, false, not, ◌&&◌, ◌||◌, String, Option, none, some, List, [],
  ◌∷◌, select, leb, ltb, str_eq, ◌==◌, refers, is_some, seconds, if◌then◌else◌,
}
use novena_hub.Envelope.Int.{ℤ, pos, negsuc}
use novena_hub.Freshness.{Thresholds, MonitoredDevice, device_freshness_thresholds}
use novena_hub.Alerts.{
  AlertRule, Alert, Point, evaluate_condition_value, condition_value, trigger_alert, resolve_alert,
}

-- Whether the value of a point is known and meets the rule.
unfoldable pub meets : AlertRule → Point → Bool
unfolding condition_value evaluate_condition_value
meets r p = elim (condition_value p) [ none ↦ false | some v ↦ evaluate_condition_value r v ]

abbrev pub insert : Point → List Point → List Point
insert p [] = p ∷ []
insert p (q ∷ qs) =
    let rest = insert p qs in if leb p.timestamp q.timestamp then p ∷ q ∷ qs else q ∷ rest

-- `.order_by("timestamp")`
unfoldable pub order_by_timestamp : List Point → List Point
order_by_timestamp [] = []
order_by_timestamp (p ∷ ps) = insert p (order_by_timestamp ps)

abbrev pub later_of : Point → Option Point → Point
later_of p none = p
later_of p (some q) = if ltb p.timestamp q.timestamp then q else p

-- `.filter(timestamp__lt=start).order_by("-timestamp").first()`
unfoldable pub latest_before : ℕ → List Point → Option Point
latest_before start [] = none
latest_before start (p ∷ ps) =
    let rest = latest_before start ps in
    if ltb p.timestamp start then some (later_of p rest) else rest

unfoldable pub last_point : Point → List Point → Point
last_point p [] = p
last_point p (q ∷ qs) = last_point q qs

-- Every later point meets the rule and follows the one before it within the gap.
unfoldable pub follows : AlertRule → ℕ → Point → List Point → Bool
unfolding meets
follows r gap p [] = true
follows r gap p (q ∷ qs) = meets r q && (leb (q.timestamp - p.timestamp) gap && follows r gap q qs)

-- The points, oldest first: the last is not too long ago, and all meet the rule without a gap.
unfoldable pub unbroken : AlertRule → ℕ → ℕ → Point → List Point → Bool
unfolding last_point follows meets
unbroken r gap read_at p ps =
    not (ltb gap (read_at - (last_point p ps).timestamp)) && (meets r p && follows r gap p ps)

-- The point before the window, which has to meet the rule.
unfoldable pub unbroken_from : AlertRule → ℕ → ℕ → Option Point → Point → List Point → Bool
unfolding unbroken meets
unbroken_from r gap read_at none p ps = false
unbroken_from r gap read_at (some q) p ps = meets r q && unbroken r gap read_at q (p ∷ ps)

-- The part on the history, given the points in the window.
unfoldable pub evaluate_window : AlertRule → ℕ → ℕ → ℕ → List Point → List Point → Bool
unfolding unbroken_from latest_before
evaluate_window r gap start read_at history [] = false
evaluate_window r gap start read_at history (p ∷ ps) =
    if ltb (start + seconds 2) p.timestamp
    then unbroken_from r gap read_at (latest_before start history) p ps
    else unbroken r gap read_at p ps

-- The telemetry of a device and a key.
abbrev pub is_series : ℕ → String → Point → Bool
is_series device key p = (p.device == device) && str_eq p.key key

abbrev pub in_window : ℕ → Point → Bool
in_window start p = leb start p.timestamp

-- What `evaluate_condition` reads beside the rule: the device, the key, the telemetry, and the clock
-- at its two readings.
pub record Reading : Type 0 where
  pub thresholds : Thresholds
  pub pk : ℕ
  pub site : ℕ
  pub device : MonitoredDevice
  pub key : String
  pub telemetry : List Point
  pub now : ℕ
  pub read_at : ℕ

abbrev pub history_of : Reading → List Point
history_of x = select (is_series x.pk x.key) x.telemetry

abbrev pub gap_of : Reading → ℕ
gap_of x = seconds (device_freshness_thresholds x.thresholds x.device).1

-- The part below the current value, for a duration in seconds.
unfoldable pub evaluate_duration : AlertRule → Reading → ℤ → Bool
unfolding evaluate_window order_by_timestamp device_freshness_thresholds
evaluate_duration r x (negsuc d) = true
evaluate_duration r x (pos zero) = true
evaluate_duration r x (pos (suc d)) =
    let start = x.now - seconds (suc d) in
    evaluate_window r (gap_of x) start x.read_at (history_of x)
      (order_by_timestamp (select (in_window start) (history_of x)))

-- `evaluate_condition`
unfoldable pub evaluate_condition : AlertRule → Reading → ℤ → Bool
unfolding evaluate_condition_value evaluate_duration
evaluate_condition r x v = evaluate_condition_value r v && evaluate_duration r x r.duration_seconds

-- The query of the rules for a device and a key.
unfoldable pub applies_to : Reading → AlertRule → Bool
applies_to x r =
    (r.is_active && str_eq r.telemetry_key x.key)
    && (refers r.device x.pk || not (is_some r.device) && refers r.site x.site)

unfoldable pub check_rules : Reading → ℤ → List AlertRule → List Alert → List Alert
unfolding evaluate_condition applies_to trigger_alert resolve_alert
check_rules x v [] alerts = alerts
check_rules x v (r ∷ rules) alerts = check_rules x v rules (
    if applies_to x r
    then (if evaluate_condition r x v
        then trigger_alert x.read_at r x.pk v alerts
        else resolve_alert x.read_at r x.pk alerts)
    else alerts)

-- `check_alerts_for_payload`; a value that is no number is `none`.
unfoldable pub check_alerts_for_payload :
    Reading → Option ℤ → List AlertRule → List Alert → List Alert
unfolding check_rules
check_alerts_for_payload x none rules alerts = alerts
check_alerts_for_payload x (some v) rules alerts = check_rules x v rules alerts
