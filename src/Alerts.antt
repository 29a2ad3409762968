-- ===== src/Alerts.antt =====
-- apps/alerts/services.py, with the rows it keeps, of apps/alerts/models.py and
-- apps/telemetry/models.py. A measured value and a threshold are floats, counted in millionths.
pub mod Window
pub mod Sustained
use novena_hub.Prelude.{
  ℕ, ◌+◌, ◌*◌, suc, Bool, true, false, not, ◌&&◌, ◌||◌, String, Option, none, some, List, [], ◌∷◌,
  ◌++◌, map, select, any, update_where, leb, ltb, str_eq, ◌==◌, refers, option_eq, minutes,
  if◌then◌else◌,
}
use novena_hub.Envelope.Int.{ℤ, pos, negsuc, leb_int}

-- `AlertRule`
pub record AlertRule : Type 0 where
  pub pk : ℕ
  pub team : ℕ
  pub device : Option ℕ
  pub site : Option ℕ
  pub telemetry_key : String
  pub condition : String
  pub threshold : ℤ
  pub duration_seconds : ℤ
  pub is_active : Bool
  pub cooldown_minutes : ℤ

-- `Alert.STATUS_CHOICES`
pub data AlertStatus : Type 0 where
  active acknowledged resolved : AlertStatus

-- `Alert`
pub record Alert : Type 0 where
  pub rule : ℕ
  pub device : ℕ
  pub team : ℕ
  pub triggered_at : ℕ
  pub resolved_at : Option ℕ
  pub trigger_value : ℤ
  pub status : AlertStatus

-- `TelemetryData`: the columns that the rules read.
pub record Point : Type 0 where
  pub device : ℕ
  pub key : String
  pub timestamp : ℕ
  pub value_numeric : Option ℤ
  pub value_bool : Option Bool

-- `evaluate_condition_value`
unfoldable pub evaluate_condition_value : AlertRule → ℤ → Bool
evaluate_condition_value r v =
    if str_eq r.condition "gt"
    then not (leb_int v r.threshold)
    else if str_eq r.condition "lt"
    then not (leb_int r.threshold v)
    else if str_eq r.condition "gte"
    then leb_int r.threshold v
    else if str_eq r.condition "lte"
    then leb_int v r.threshold
    else if str_eq r.condition "eq"
    then leb_int v r.threshold && leb_int r.threshold v
    else if str_eq r.condition "neq"
    then not (leb_int v r.threshold && leb_int r.threshold v)
    else false

-- `_condition_value`: `int(True)` is a million millionths.
unfoldable pub condition_value : Point → Option ℤ
condition_value p = elim p.value_numeric [
  | some v ↦ some v
  | none ↦ elim p.value_bool [
    | some true ↦ some (pos 1000000)
    | some false ↦ some (pos 0)
    | none ↦ none
  ]
]

unfoldable pub is_open_alert : AlertStatus → Bool
is_open_alert AlertStatus.active = true
is_open_alert AlertStatus.acknowledged = true
is_open_alert AlertStatus.resolved = false

abbrev pub concerns : AlertRule → ℕ → Alert → Bool
concerns r device a = (a.rule == r.pk) && ((a.device == device) && is_open_alert a.status)

-- `triggered_at >= now - cooldown`; a negative cooldown moves the limit into the future.
unfoldable pub is_recent : ℕ → ℤ → Alert → Bool
is_recent now (pos m) a = leb now (a.triggered_at + minutes m)
is_recent now (negsuc m) a = leb (now + minutes (suc m)) a.triggered_at

unfoldable pub new_alert : ℕ → AlertRule → ℕ → ℤ → Alert
new_alert created_at r device v = record {
  rule = r.pk;
  device = device;
  team = r.team;
  triggered_at = created_at;
  resolved_at = none;
  trigger_value = v;
  status = AlertStatus.active;
}

-- `trigger_alert`: the alerts after it. The mails and the ticket of a new alert leave no trace here.
unfoldable pub trigger_alert : ℕ → AlertRule → ℕ → ℤ → List Alert → List Alert
unfolding is_recent new_alert is_open_alert
trigger_alert now r device v alerts =
    if any (λ a. concerns r device a && is_recent now r.cooldown_minutes a) alerts
    then alerts
    else new_alert now r device v ∷ alerts

-- `resolve_alert`
unfoldable pub resolve_alert : ℕ → AlertRule → ℕ → List Alert → List Alert
unfolding is_open_alert
resolve_alert now r device =
    update_where (concerns r device)
      (λ a. record a { status = AlertStatus.resolved; resolved_at = some now })
