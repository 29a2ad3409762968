-- ===== src/Gateways/Delivery.antt =====
-- apps/devices/gateway_config_delivery.py and the two tables it keeps, of apps/devices/models.py.
pub mod Validate
pub mod Queue
pub mod Dispatch
pub mod Acknowledge
pub mod Kept
pub mod Steps
pub mod Latest
pub mod Retried
pub mod Guarded
use novena_hub.Prelude.{ℕ, Bool, true, false, ◌&&◌, String, Option, none, some, List, str_eq, ◌==◌}
use novena_hub.Json.{Json}
use novena_hub.Gateways.Types.{EdgeGateway}

-- `GatewayConfig.STATUS_CHOICES`
pub data ConfigStatus : Type 0 where
  queued waiting_for_gateway published accepted active failed rolled_back timed_out : ConfigStatus
  superseded : ConfigStatus

-- `TERMINAL_CONFIG_STATUSES`
unfoldable pub is_settled : ConfigStatus → Bool
is_settled ConfigStatus.active = true
is_settled ConfigStatus.failed = true
is_settled ConfigStatus.rolled_back = true
is_settled ConfigStatus.superseded = true
is_settled _ = false

-- What is signed of a configuration.
pub record EnvelopeBody : Type 0 where
  pub schema_version : ℕ
  pub request_id : String
  pub idempotency_key : String
  pub gateway_serial : String
  pub revision : ℕ
  pub checksum : String
  pub issued_at : ℕ
  pub expires_at : Option ℕ
  pub action : String
  pub config : Json

-- `envelope_json`
pub record Envelope : Type 0 where
  pub body : EnvelopeBody
  pub signing_key_id : String
  pub signature : String

-- `GatewayConfig`; the envelope is `none` until it is built. An identifier is its text.
pub record Config : Type 0 where
  pub pk : ℕ
  pub team_id : ℕ
  pub gateway_id : ℕ
  pub setup_run : Option ℕ
  pub config_json : Json
  pub created_at : ℕ
  pub request_id : String
  pub idempotency_key : String
  pub revision : ℕ
  pub checksum : String
  pub envelope_json : Option Envelope
  pub action : String
  pub status : ConfigStatus
  pub error_message : String
  pub error_code : String
  pub technical_error : String
  pub rollback_performed : Bool
  pub connector_results : Json
  pub rollback_connector_results : Json
  pub delivered_at : Option ℕ
  pub published_at : Option ℕ
  pub accepted_at : Option ℕ
  pub acknowledged_at : Option ℕ
  pub acknowledgement_deadline_at : Option ℕ
  pub last_ack_at : Option ℕ
  pub expires_at : Option ℕ

-- `GatewayConfigOutbox.Status`
pub data DeliveryStatus : Type 0 where
  pending claimed waiting_gateway awaiting_ack completed retry dead_letter : DeliveryStatus

-- `GatewayConfigOutbox`
pub record ConfigOutbox : Type 0 where
  pub status : DeliveryStatus
  pub attempt_count : ℕ
  pub next_attempt_at : ℕ
  pub claimed_at : Option ℕ
  pub lease_expires_at : Option ℕ
  pub delivered_at : Option ℕ
  pub dead_lettered_at : Option ℕ
  pub last_error : String

-- A configuration with its outbox, which `queue_gateway_config` creates with it.
pub record ConfigRow : Type 0 where
  pub config : Config
  pub outbox : ConfigOutbox

-- The settings of delivery, in seconds.
pub record DeliverySettings : Type 0 where
  pub intent_ttl : ℕ
  pub lease_seconds : ℕ
  pub apply_timeout : ℕ
