-- ===== src/Tests/Fixtures.antt =====
-- A team, a Gateway with one device, and a command that writes a register of it.
use novena_hub.Prelude.{ℕ, true, false, none, some, List, [], ◌∷◌}
use novena_hub.Json.{Json, Fields}
use novena_hub.Teams.Types.{Team, User, Membership, RemoteControlMode}
use novena_hub.RemoteControl.Types.{
  Source, Risk, Status, ActorSnapshot, EventPayload, Command, OutboxStatus, Outbox, Approval,
  ApprovalStatus, CommandRow, CommandEvent, Gateway, Device,
}
use novena_hub.RemoteControl.Catalog.{CommandDefinition}
use novena_hub.RemoteControl.Protocol.{required_state_change_capabilities}
use novena_hub.RemoteControl.Governance.{ScopeMode, ActivationStatus, Activation, Governance}
use novena_hub.RemoteControl.Dispatch.Claim.{Context}
use novena_hub.Readiness.Approve.{Binding}

-- Functions in the place of the digests.
abbrev pub tag : EventPayload → ℕ
tag p = p.sequence_number

abbrev pub bind : Binding → ℕ
bind b = b.command_id

abbrev pub owner : User
owner = record { pk = 1; is_authenticated = true; email = "o@example.org"; display_name = "Owner" }

abbrev pub admin : User
admin = record { pk = 2; is_authenticated = true; email = "a@example.org"; display_name = "Admin" }

abbrev pub members : List Membership
members =
    record { user = 1; team = 7; role = "owner"; site_access = [] }
    ∷ record { user = 2; team = 7; role = "admin"; site_access = [] }
    ∷ []

abbrev pub plant : Team
plant = record {
  pk = 7;
  status = "active";
  remote_control_mode = RemoteControlMode.controlled;
  remote_control_epoch = 3;
}

abbrev pub edge : Gateway
edge = record {
  pk = 11;
  team_id = 7;
  site = some 5;
  lifecycle_status = "active";
  remote_control_protocol_version = 1;
  remote_control_capabilities = required_state_change_capabilities;
  remote_control_local_writeback_enabled = true;
  remote_control_policy_loaded = true;
  remote_control_epoch = 3;
  remote_control_policy_revision = 2;
  remote_control_clock_ready = true;
  remote_control_journal_ready = true;
  remote_control_storage_healthy = true;
}

abbrev pub pump : Device
pump = record {
  pk = 21;
  team_id = 7;
  gateway_id = some 11;
  site = some 5;
  template_id = some 9;
  name = "Pump";
}

abbrev pub key : Activation
key = record {
  team = 7;
  device = 21;
  device_site = some 5;
  device_gateway = some 11;
  command_key = "setpoint";
  status = ActivationStatus.active;
  control_epoch = 3;
  expires_at = 1000000000;
  suspended_reason = "";
}

abbrev pub governed : Governance
governed = record {
  scopes =
      record {
        team = 7;
        site = some 5;
        gateway = some 11;
        device = some 21;
        command_key = "setpoint";
        mode = ScopeMode.enabled;
        control_epoch = 3;
        reason = "";
      }
      ∷ [];
  definitions =
      record {
        template = 9;
        command_key = "setpoint";
        revision = 1;
        is_verified = true;
        is_enabled = true;
      }
      ∷ [];
  envelopes =
      record {
        team = 7;
        device = 21;
        command_key = "setpoint";
        revision = 1;
        expires_at = none;
        is_active = true;
      }
      ∷ [];
  policies =
      record {
        team = 7;
        gateway = some 11;
        device = some 21;
        command_key = "setpoint";
        revision = 2;
        checksum = "c2";
        is_enabled = true;
      }
      ∷ [];
  activations = key ∷ [];
}

abbrev pub ctx : Context
ctx = record { team = plant; gateway = edge; device = some pump; governance = governed }

abbrev pub write : Command
write = record {
  pk = 31;
  team_id = 7;
  gateway_id = 11;
  device_id = some 21;
  requested_by = some 1;
  source = Source.user;
  operation = "write_device";
  command_key = "setpoint";
  requested_value = Json.int 40;
  normalized_value = Json.int 40;
  reason = "test";
  risk = Risk.high;
  status = Status.queued;
  transport_status = "request_accepted";
  execution_status = "not_started";
  actor_snapshot = ActorSnapshot.user_actor 1 "o@example.org" "Owner";
  params = record { device_id = some 21; device_name = "Pump"; others = Fields.end };
  response_payload = Json.obj Fields.end;
  template_revision = 1;
  commissioning_revision = 1;
  policy_revision = 2;
  policy_checksum = "c2";
  signing_key_id = "";
  signature = "";
  control_epoch = 3;
  sequence_number = 1;
  expires_at = 60000000;
  broker_acknowledged_at = none;
  gateway_received_at = none;
  completed_at = none;
  error_code = "";
  error_message = "";
}

abbrev pub waiting : Outbox
waiting = record {
  status = OutboxStatus.pending;
  attempt_count = 0;
  next_attempt_at = 0;
  claimed_at = none;
  lease_expires_at = none;
  published_at = none;
  dead_lettered_at = none;
  last_error = "";
}

-- The only event of the command, with the checksum that `tag` gives.
abbrev pub first_event : CommandEvent
first_event = record {
  sequence_number = 1;
  event_type = "command_queued";
  from_status = some Status.requested;
  to_status = some Status.queued;
  actor = some 1;
  actor_snapshot = ActorSnapshot.user_actor 1 "o@example.org" "Owner";
  evidence = Fields.end;
  checksum = 1;
}

abbrev pub queued_row : CommandRow
queued_row = record {
  command = write;
  events = first_event ∷ [];
  outbox = some waiting;
  attempts = [];
  approval = none;
}

abbrev pub asked_approval : Approval
asked_approval = record {
  pk = 41;
  requested_by_snapshot = ActorSnapshot.user_actor 1 "o@example.org" "Owner";
  approver = none;
  approver_snapshot = none;
  status = ApprovalStatus.pending;
  binding_checksum = 31;
  expires_at = 60000000;
  decided_at = none;
  decision_reason = "";
  mfa_verified = false;
  recent_auth_at = none;
}

abbrev pub approval_row : CommandRow
approval_row = record {
  command = record write { status = Status.awaiting_approval };
  events = [];
  outbox = none;
  attempts = [];
  approval = some asked_approval;
}

-- A diagnostic command.
abbrev pub ping_row : CommandRow
ping_row = record {
  command = record write { operation = "ping"; risk = Risk.diagnostic; device_id = none };
  events = [];
  outbox = some (record waiting { status = OutboxStatus.retry; attempt_count = 1 });
  attempts = [];
  approval = none;
}

abbrev pub write_definition : CommandDefinition
write_definition = record {
  operation = "write_device";
  risk = Risk.high;
  state_changing = true;
  permission = "request_high_risk_commands";
  device_required = true;
}
