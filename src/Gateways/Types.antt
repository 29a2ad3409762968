-- ===== src/Gateways/Types.antt =====
-- apps/devices/models.py: the columns of `Gateway` that monitoring, delivery and release use.
use novena_hub.Prelude.{ℕ, Bool, ◌||◌, String, Option, List, str_eq}
use novena_hub.Json.{Json}

-- `Gateway`
pub record EdgeGateway : Type 0 where
  pub pk : ℕ
  pub team_id : ℕ
  pub serial_number : String
  pub access_token : String
  pub status : String
  pub lifecycle_status : String
  pub last_seen : Option ℕ
  pub firmware_version : String
  pub config : Json
  pub discovery_data : Json
  pub mqtt_username : Option String
  pub mqtt_password : String
  pub client_cert_pem : String
  pub client_key_pem : String
  pub mqtt_provisioning_status : String
  pub mqtt_provisioning_error : String
  pub credential_rotation_status : String
  pub last_bootstrap_seen_at : Option ℕ
  pub active_connectors : Json
  pub connected_devices : Json
  pub gateway_capabilities : List String
  pub remote_control_clock_ready : Bool
  pub mqtt_connected : Option Bool

-- What a call that may raise gives: its value, or the text of the exception.
pub data Outcome {ℓ} (A : Type ℓ) : Type ℓ where
  returned : A → Outcome A
  raised : String → Outcome A

-- `gateway_is_quarantined`
unfoldable pub gateway_is_quarantined : EdgeGateway → Bool
gateway_is_quarantined g =
    str_eq g.lifecycle_status "release_pending" || str_eq g.lifecycle_status "released"
