-- ===== src/RemoteControl/Request/Record.antt =====
-- apps/devices/remote_control.py: what `request_remote_command` writes.
use novena_hub.Prelude.{
  ℕ, ◌+◌, min, max, Bool, true, false, String, Option, none, some, List, [], ◌∷◌, option_eq,
  contains, seconds, if◌then◌else◌,
}
use novena_hub.Json.{Json, Fields, field, end, text}
use novena_hub.Teams.Types.{Team}
use novena_hub.RemoteControl.Types.{Status, CommandRow, EventPayload, Gateway, Device, Denial}
use novena_hub.RemoteControl.Catalog.{CommandDefinition}
use novena_hub.RemoteControl.Events.{actor_snapshot, actor_of, append_event}
use novena_hub.RemoteControl.Revalidation.{or_else}
use novena_hub.Readiness.Approve.{Binding, new_outbox, create_approval}
use novena_hub.RemoteControl.Request.{Resolution, Resolved, resolved, refused, Asked}

-- `operation in {"read_device", "write_device"}`
abbrev pub touches_register : String → Bool
touches_register operation = contains ("read_device" ∷ "write_device" ∷ []) operation

abbrev plain : Asked → Resolution
plain asked = record {
  params = asked.params;
  normalized = asked.normalized;
  template_revision = 0;
  commissioning_revision = 0;
  policy_revision = 0;
  policy_checksum = "";
  approval_required = false;
}

abbrev aimed : Device → Resolution → Resolution
aimed d r = record r { params = record r.params { device_id = some d.pk; device_name = d.name } }

-- `except ... as exc: denial = denial or (exc.code, str(exc))`
abbrev from_resolved : Option Denial → Resolved → Resolution × Option Denial
from_resolved denial (resolved r) = (r, denial)
from_resolved denial (refused d r) = (r, or_else denial (some d))

abbrev pub resolve_on :
    Asked → Option Denial → Resolved → Option Device → Resolution × Option Denial
resolve_on asked denial answer none = (plain asked, denial)
resolve_on asked denial answer (some d) =
    let (r, denial') =
      if touches_register asked.operation
      then from_resolved denial answer
      else (plain asked, denial) in
    (aimed d r, denial')

-- The parameters of the command, with the first denial: that of policy, or that of the resolution.
unfoldable pub resolve_target : Asked → Option Denial → Resolved → Resolution × Option Denial
resolve_target asked denial answer = resolve_on asked denial answer asked.device

-- The greatest `sequence_number` among the commands of the device.
unfoldable pub last_sequence : Option ℕ → List CommandRow → ℕ
last_sequence device [] = 0
last_sequence device (row ∷ rest) =
    let below = last_sequence device rest in
    if option_eq row.command.device_id device then max row.command.sequence_number below else below

unfoldable pub sequence_for : Option Device → List CommandRow → ℕ
unfolding last_sequence
sequence_for none rows = 1
sequence_for (some d) rows = last_sequence (some d.pk) rows + 1

-- `max(5, min(ttl_seconds, 300))`
unfoldable pub lifetime : ℕ → ℕ
lifetime ttl_seconds = max 5 (min ttl_seconds 300)

unfoldable pub initial_status : Option Denial → Bool → Status
initial_status (some d) approval_required = Status.policy_denied
initial_status none true = Status.awaiting_approval
initial_status none false = Status.queued

abbrev initial_event : Option Denial → Bool → String
initial_event (some d) approval_required = "policy_denied"
initial_event none true = "approval_requested"
initial_event none false = "command_queued"

abbrev initial_evidence : Option Denial → String → Fields
initial_evidence (some d) operation = field "code" (text d.code) end
initial_evidence none operation = field "operation" (text operation) end

abbrev pub code_of : Option Denial → String
code_of none = ""
code_of (some d) = d.code

abbrev message_of : Option Denial → String
message_of none = ""
message_of (some d) = d.message

abbrev device_key : Option Device → Option ℕ
device_key none = none
device_key (some d) = some d.pk

module _ (digest : EventPayload → ℕ) (checksum : Binding → ℕ) where
  -- `RemoteCommand.objects.create(...)`, with the primary key that the table gives.
  unfoldable pub create_command :
      ℕ
      → ℕ
      → List CommandRow
      → CommandDefinition
      → Team
      → Gateway
      → Asked
      → Resolution
      → Option Denial
      → CommandRow
  unfolding sequence_for lifetime initial_status
  create_command pk now rows definition team gateway asked r denial = record {
    command = record {
      pk = pk;
      team_id = team.pk;
      gateway_id = gateway.pk;
      device_id = device_key asked.device;
      requested_by = actor_of asked.requested_by;
      source = asked.source;
      operation = asked.operation;
      command_key = asked.command_key;
      requested_value = asked.value;
      normalized_value = r.normalized;
      reason = asked.reason;
      risk = definition.risk;
      status = initial_status denial r.approval_required;
      transport_status = "request_accepted";
      execution_status = "not_started";
      actor_snapshot = actor_snapshot asked.requested_by;
      params = r.params;
      response_payload = Json.obj end;
      template_revision = r.template_revision;
      commissioning_revision = r.commissioning_revision;
      policy_revision = r.policy_revision;
      policy_checksum = r.policy_checksum;
      signing_key_id = "";
      signature = "";
      control_epoch = team.remote_control_epoch;
      sequence_number = sequence_for asked.device rows;
      expires_at = now + seconds (lifetime asked.ttl_seconds);
      broker_acknowledged_at = none;
      gateway_received_at = none;
      completed_at = none;
      error_code = code_of denial;
      error_message = message_of denial;
    };
    events = [];
    outbox = none;
    attempts = [];
    approval = none;
  }

  unfoldable pub log_request : Asked → Resolution → Option Denial → CommandRow → CommandRow
  unfolding initial_status
  log_request asked r denial row =
      append_event digest
        (record {
          event_type = initial_event denial r.approval_required;
          actor = asked.requested_by;
          from_status = some Status.requested;
          to_status = some (initial_status denial r.approval_required);
          evidence = initial_evidence denial asked.operation;
        })
        row

  -- What follows the event: nothing, a request for approval, or the outbox row.
  unfoldable pub route : ℕ → ℕ → Option Json → Option Denial → Bool → CommandRow → CommandRow
  unfolding create_approval
  route approval_pk now current (some d) approval_required row = row
  route approval_pk now current none true row =
      create_approval digest checksum approval_pk now current row
  route approval_pk now current none false row = record row { outbox = some (new_outbox now) }
