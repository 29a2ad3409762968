-- ===== src/Gateways/Delivery/Acknowledge.antt =====
-- apps/devices/gateway_config_delivery.py: `acknowledge_gateway_config`.
use novena_hub.Prelude.{
  ℕ, ◌+◌, Bool, true, false, ◌&&◌, ◌||◌, String, Option, none, some, List, ◌==◌, str_eq, seconds,
  find?, update_first, if◌then◌else◌, ◌>>=◌,
}
use novena_hub.Json.{Json, Items, truthy}
use novena_hub.Gateways.Types.{Outcome, returned, raised}
use novena_hub.Gateways.Delivery.{ConfigStatus, Config, DeliveryStatus, ConfigRow, DeliverySettings}
use novena_hub.Gateways.Delivery.Queue.{is_of, latest_revision}

-- The attributes that the call reads; a key that is absent is `none` or, for a document, null. The
-- texts that default to the empty one are given with that default.
pub record Attributes : Type 0 where
  pub config_update_request_id : Option String
  pub config_revision : Option ℕ
  pub config_checksum : Option String
  pub config_idempotency_key : Option String
  pub config_update_status : Option String
  pub config_update_error : String
  pub config_update_error_code : String
  pub rollback_performed : Json
  pub connector_results : Json
  pub rollback_connector_results : Json

-- The identity that an acknowledgement carries.
pub record Identity : Type 0 where
  pub request_id : String
  pub revision : ℕ
  pub checksum : String
  pub idempotency_key : String

abbrev unless_empty : Identity → Option Identity
unless_empty i =
    if str_eq i.request_id "" || (str_eq i.checksum "" || str_eq i.idempotency_key "")
    then none
    else some i

-- `all([request_id, revision is not None, checksum, idempotency])`, with the values.
unfoldable pub identity_of : Attributes → Option Identity
identity_of a = do
  request_id ← a.config_update_request_id
  revision ← a.config_revision
  checksum ← a.config_checksum
  idempotency_key ← a.config_idempotency_key
  unless_empty (record {
    request_id = request_id;
    revision = revision;
    checksum = checksum;
    idempotency_key = idempotency_key;
  })

unfoldable pub is_identified : Identity → Config → Bool
is_identified i c =
    (i.revision == c.revision)
    && (str_eq i.checksum c.checksum && str_eq i.idempotency_key c.idempotency_key)

-- The statuses that a Gateway reports.
pub data Report : Type 0 where
  accepted active failed rolled_back : Report

unfoldable pub reported : Report → ConfigStatus
reported accepted = ConfigStatus.accepted
reported active = ConfigStatus.active
reported failed = ConfigStatus.failed
reported rolled_back = ConfigStatus.rolled_back

-- `incoming`
unfoldable pub incoming : Option String → Option Report
incoming none = none
incoming (some text) =
    if str_eq text "success" || str_eq text "active"
    then some active
    else if str_eq text "accepted"
    then some accepted
    else if str_eq text "failed"
    then some failed
    else if str_eq text "rolled_back"
    then some rolled_back
    else none

unfoldable pub note_ack : ℕ → ConfigRow → ConfigRow
note_ack now row = record row { config = record row.config { last_ack_at = some now } }

-- A late `accepted` does not take a configuration back to an earlier status.
unfoldable pub keeps_status : ConfigStatus → Bool
keeps_status ConfigStatus.active = true
keeps_status ConfigStatus.failed = true
keeps_status ConfigStatus.rolled_back = true
keeps_status ConfigStatus.timed_out = true
keeps_status _ = false

unfoldable pub accept : DeliverySettings → ℕ → ConfigRow → ConfigRow
accept s now row =
    let deadline = now + seconds s.apply_timeout in
    record row {
      config = record row.config {
        last_ack_at = some now;
        status = ConfigStatus.accepted;
        accepted_at = some now;
        acknowledgement_deadline_at = some deadline;
      };
      outbox = record row.outbox {
        status = DeliveryStatus.awaiting_ack;
        next_attempt_at = deadline;
      };
    }

-- `value or []`
abbrev or_empty : Json → Json
or_empty v = if truthy v then v else Json.arr Items.nil

unfoldable pub conclude : ℕ → ConfigStatus → Attributes → ConfigRow → ConfigRow
unfolding truthy
conclude now status a row = record row {
  config = record row.config {
    last_ack_at = some now;
    status = status;
    acknowledged_at = some now;
    technical_error = a.config_update_error;
    error_code = a.config_update_error_code;
    rollback_performed = truthy a.rollback_performed;
    connector_results = or_empty a.connector_results;
    rollback_connector_results = or_empty a.rollback_connector_results;
  };
  outbox = record row.outbox { status = DeliveryStatus.completed; lease_expires_at = none };
}

-- The row of the latest revision after a report.
unfoldable pub apply_report : DeliverySettings → ℕ → Report → Attributes → ConfigRow → ConfigRow
unfolding note_ack keeps_status accept conclude reported
apply_report s now accepted a row =
    if keeps_status row.config.status then note_ack now row else accept s now row
apply_report s now report a row = conclude now (reported report) a row

-- A report on an older revision.
unfoldable pub outdate : ℕ → ConfigRow → ConfigRow
outdate now row = record row {
  config = record row.config { last_ack_at = some now; status = ConfigStatus.superseded };
}

-- The row after a valid report.
unfoldable pub acknowledge_row :
    DeliverySettings → ℕ → ℕ → Report → Attributes → ConfigRow → ConfigRow
unfolding apply_report outdate
acknowledge_row s now latest report a row =
    if row.config.revision == latest then apply_report s now report a row else outdate now row

abbrev pub is_requested : String → ℕ → ConfigRow → Bool
is_requested request_id gateway row = str_eq row.config.request_id request_id && is_of gateway row

-- The checks below the lookup, and the writes.
unfoldable pub acknowledge_found :
    DeliverySettings
    → ℕ
    → ℕ
    → Attributes
    → Identity
    → List ConfigRow
    → Option ConfigRow
    → Outcome (List ConfigRow)
unfolding is_identified incoming latest_revision acknowledge_row
acknowledge_found s now gateway a i rows none =
    raised "GatewayConfig matching query does not exist."
acknowledge_found s now gateway a i rows (some found) =
    if is_identified i found.config
    then elim (incoming a.config_update_status) [
      | none ↦ raised "Signed configuration acknowledgement has an invalid status."
      | some report ↦ returned (
          update_first (is_requested i.request_id gateway)
            (acknowledge_row s now (latest_revision gateway rows) report a) rows)
    ]
    else raised "Signed configuration acknowledgement identity does not match."

-- `acknowledge_gateway_config`: the table after it.
unfoldable pub acknowledge_gateway_config :
    DeliverySettings → ℕ → ℕ → Attributes → List ConfigRow → Outcome (List ConfigRow)
unfolding identity_of acknowledge_found
acknowledge_gateway_config s now gateway a rows = elim (identity_of a) [
  | none ↦ raised "Signed configuration acknowledgement is missing identity fields."
  | some i ↦
      acknowledge_found s now gateway a i rows (find? (is_requested i.request_id gateway) rows)
]
