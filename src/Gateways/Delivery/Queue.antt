-- ===== src/Gateways/Delivery/Queue.antt =====
-- apps/devices/gateway_config_delivery.py: `queue_gateway_config` and `retry_gateway_config`.
use novena_hub.Prelude.{
  ℕ, ◌+◌, max, Bool, true, false, ◌&&◌, String, Option, none, some, List, [], ◌∷◌, ◌==◌, seconds,
  update_where, if◌then◌else◌,
}
use novena_hub.Json.{Json, Items}
use novena_hub.Gateways.Types.{EdgeGateway, Outcome, returned, raised}
use novena_hub.Gateways.Delivery.{
  ConfigStatus, EnvelopeBody, Envelope, Config, DeliveryStatus, ConfigOutbox, ConfigRow,
  DeliverySettings,
}
use novena_hub.Gateways.Delivery.Validate.{
  ensure_gateway_configurable, validate_gateway_config_payload, ◌or_else◌,
}

-- What the caller passes, and the fresh values that the call draws: the key of the new row, its two
-- identifiers, and the clock.
pub record QueueRequest : Type 0 where
  pub action : String
  pub config : Json
  pub setup_run : Option ℕ
  pub fresh_pk : ℕ
  pub fresh_request_id : String
  pub fresh_idempotency_key : String
  pub now : ℕ

abbrev pub is_of : ℕ → ConfigRow → Bool
is_of gateway row = row.config.gateway_id == gateway

-- `...filter(gateway=gateway).order_by("-revision")...first() or 0`
unfoldable pub latest_revision : ℕ → List ConfigRow → ℕ
latest_revision gateway [] = 0
latest_revision gateway (row ∷ rows) =
    let rest = latest_revision gateway rows in
    if is_of gateway row then max row.config.revision rest else rest

-- The statuses of the configurations that a newer one replaces.
unfoldable pub is_open : ConfigStatus → Bool
is_open ConfigStatus.queued = true
is_open ConfigStatus.waiting_for_gateway = true
is_open ConfigStatus.published = true
is_open ConfigStatus.accepted = true
is_open ConfigStatus.timed_out = true
is_open _ = false

-- The two updates of a row that is replaced, its own and its outbox's.
unfoldable pub supersede : ConfigRow → ConfigRow
supersede row = record row {
  config = record row.config {
    status = ConfigStatus.superseded;
    error_code = "newer_revision";
    error_message = "A newer settings revision replaced this one.";
  };
  outbox = record row.outbox { status = DeliveryStatus.completed };
}

unfoldable pub supersede_open : ℕ → List ConfigRow → List ConfigRow
unfolding is_open supersede
supersede_open gateway =
    update_where (λ row. is_of gateway row && is_open row.config.status) supersede

-- The document that is signed.
unfoldable pub envelope_body : EdgeGateway → Config → EnvelopeBody
envelope_body g c = record {
  schema_version = 1;
  request_id = c.request_id;
  idempotency_key = c.idempotency_key;
  gateway_serial = g.serial_number;
  revision = c.revision;
  checksum = c.checksum;
  issued_at = c.created_at;
  expires_at = c.expires_at;
  action = c.action;
  config = c.config_json;
}

unfoldable pub new_outbox : ℕ → ConfigOutbox
new_outbox now = record {
  status = DeliveryStatus.pending;
  attempt_count = 0;
  next_attempt_at = now;
  claimed_at = none;
  lease_expires_at = none;
  delivered_at = none;
  dead_lettered_at = none;
  last_error = "";
}

-- The digest of a document and the signature of a body come from a library.
module _ (payload_checksum : Json → String) (sign_payload : EnvelopeBody → String × String) where
  -- `build_signed_config_envelope`
  unfoldable pub build_signed_config_envelope : EdgeGateway → Config → Envelope
  unfolding envelope_body
  build_signed_config_envelope g c = record {
    body = envelope_body g c;
    signing_key_id = (sign_payload (envelope_body g c)).0;
    signature = (sign_payload (envelope_body g c)).1;
  }

  unfoldable pub new_config : DeliverySettings → EdgeGateway → ℕ → QueueRequest → Config
  new_config s g revision r = record {
    pk = r.fresh_pk;
    team_id = g.team_id;
    gateway_id = g.pk;
    setup_run = r.setup_run;
    config_json = r.config;
    created_at = r.now;
    request_id = r.fresh_request_id;
    idempotency_key = r.fresh_idempotency_key;
    revision = revision;
    checksum = payload_checksum r.config;
    envelope_json = none;
    action = r.action;
    status = ConfigStatus.queued;
    error_message = "";
    error_code = "";
    technical_error = "";
    rollback_performed = false;
    connector_results = Json.arr Items.nil;
    rollback_connector_results = Json.arr Items.nil;
    delivered_at = none;
    published_at = none;
    accepted_at = none;
    acknowledged_at = none;
    acknowledgement_deadline_at = none;
    last_ack_at = none;
    expires_at = some (r.now + seconds s.intent_ttl);
  }

  -- The writes of the call, below its checks.
  unfoldable pub record_config :
      DeliverySettings → EdgeGateway → QueueRequest → List ConfigRow → List ConfigRow
  unfolding latest_revision supersede_open new_config build_signed_config_envelope new_outbox
  record_config s g r rows =
      let config = new_config s g (latest_revision g.pk rows + 1) r in
      record {
        config = record config { envelope_json = some (build_signed_config_envelope g config) };
        outbox = new_outbox r.now;
      }
      ∷ supersede_open g.pk rows

  -- The errors, in the order of the checks; `locked` is the row read again under its lock.
  unfoldable pub queue_error : EdgeGateway → EdgeGateway → QueueRequest → Option String
  unfolding ensure_gateway_configurable validate_gateway_config_payload
  queue_error given locked r =
      ensure_gateway_configurable given
      or_else validate_gateway_config_payload given r.action r.config
      or_else ensure_gateway_configurable locked

  abbrev unless : Option String → List ConfigRow → Outcome (List ConfigRow)
  unless none rows = returned rows
  unless (some e) rows = raised e

  -- `queue_gateway_config`: the table after it; the new row is the first.
  unfoldable pub queue_gateway_config :
      DeliverySettings
      → EdgeGateway
      → EdgeGateway
      → QueueRequest
      → List ConfigRow
      → Outcome (List ConfigRow)
  unfolding queue_error record_config
  queue_gateway_config s given locked r rows =
      unless (queue_error given locked r) (record_config s locked r rows)

  abbrev needs_attention : ConfigStatus → Bool
  needs_attention ConfigStatus.failed = true
  needs_attention ConfigStatus.rolled_back = true
  needs_attention ConfigStatus.timed_out = true
  needs_attention _ = false

  -- `retry_gateway_config`: the settings of an earlier row are queued again.
  unfoldable pub retry_gateway_config :
      DeliverySettings
      → EdgeGateway
      → EdgeGateway
      → Config
      → QueueRequest
      → List ConfigRow
      → Outcome (List ConfigRow)
  unfolding queue_gateway_config
  retry_gateway_config s given locked c r rows =
      if needs_attention c.status
      then queue_gateway_config s given locked
          (record r { action = c.action; config = c.config_json; setup_run = c.setup_run }) rows
      else raised "Only settings that need attention can be retried."
