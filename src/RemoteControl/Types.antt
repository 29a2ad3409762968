-- ===== src/RemoteControl/Types.antt =====
-- apps/devices/models.py: the rows of the remote-control tables. A row that belongs to one command
-- (events, outbox, attempts, approval) stands in the `CommandRow` of that command.
use novena_hub.Prelude.{ℕ, Bool, String, Option, List}
use novena_hub.Json.{Json, Fields}

-- `RemoteCommand.Source`
pub data Source : Type 0 where
  user automation system support : Source

-- `RemoteCommand.Risk`
pub data Risk : Type 0 where
  diagnostic low high critical : Risk

-- `RemoteCommand.Status`
pub data Status : Type 0 where
  requested policy_denied awaiting_approval approved queued dispatching : Status
  publish_accepted broker_acknowledged gateway_received executing : Status
  field_protocol_accepted verification_pending verified : Status
  action_initiated action_completed rejected failed expired timed_out : Status
  cancelled outcome_unknown reconciled_verified reconciled_not_applied : Status
  reconciled_unresolved : Status

unfoldable pub Status-discrete : Discrete Status
Status-discrete = hlevel

-- What `actor_snapshot` returns.
pub data ActorSnapshot : Type 0 where
  system_actor : ActorSnapshot
  user_actor : (id : ℕ) (email display_name : String) → ActorSnapshot

-- `CommandEvent`; an empty status text is `none`, and a checksum is the number its hex digits write.
pub record CommandEvent : Type 0 where
  pub sequence_number : ℕ
  pub event_type : String
  pub from_status : Option Status
  pub to_status : Option Status
  pub actor : Option ℕ
  pub actor_snapshot : ActorSnapshot
  pub evidence : Fields
  pub checksum : ℕ

-- The document whose digest is an event's checksum; no `previous` stands for the empty text.
pub record EventPayload : Type 0 where
  pub command : ℕ
  pub sequence_number : ℕ
  pub event_type : String
  pub from_status : Option Status
  pub to_status : Option Status
  pub actor : ActorSnapshot
  pub evidence : Fields
  pub previous : Option ℕ

-- `request_payload["params"]`: the two keys that the code reads again, and the others. The id of a
-- device is kept as a number, not as its decimal text.
pub record Params : Type 0 where
  pub device_id : Option ℕ
  pub device_name : String
  pub others : Fields

-- `RemoteCommand`
pub record Command : Type 0 where
  pub pk : ℕ
  pub team_id : ℕ
  pub gateway_id : ℕ
  pub device_id : Option ℕ
  pub requested_by : Option ℕ
  pub source : Source
  pub operation : String
  pub command_key : String
  pub requested_value : Json
  pub normalized_value : Json
  pub reason : String
  pub risk : Risk
  pub status : Status
  pub transport_status : String
  pub execution_status : String
  pub actor_snapshot : ActorSnapshot
  pub params : Params
  pub response_payload : Json
  pub template_revision : ℕ
  pub commissioning_revision : ℕ
  pub policy_revision : ℕ
  pub policy_checksum : String
  pub signing_key_id : String
  pub signature : String
  pub control_epoch : ℕ
  pub sequence_number : ℕ
  pub expires_at : ℕ
  pub broker_acknowledged_at : Option ℕ
  pub gateway_received_at : Option ℕ
  pub completed_at : Option ℕ
  pub error_code : String
  pub error_message : String

-- `CommandOutbox.Status`
pub data OutboxStatus : Type 0 where
  pending claimed published retry failed dead_letter cancelled : OutboxStatus

-- `CommandOutbox`
pub record Outbox : Type 0 where
  pub status : OutboxStatus
  pub attempt_count : ℕ
  pub next_attempt_at : ℕ
  pub claimed_at : Option ℕ
  pub lease_expires_at : Option ℕ
  pub published_at : Option ℕ
  pub dead_lettered_at : Option ℕ
  pub last_error : String

-- `CommandTransportAttempt`
pub record Attempt : Type 0 where
  pub attempt_number : ℕ
  pub request_id : Option ℕ
  pub state : String
  pub error : String
  pub completed_at : Option ℕ

-- `RemoteCommandApproval.Status`
pub data ApprovalStatus : Type 0 where
  pending approved rejected expired invalidated : ApprovalStatus

-- `RemoteCommandApproval`
pub record Approval : Type 0 where
  pub pk : ℕ
  pub requested_by_snapshot : ActorSnapshot
  pub approver : Option ℕ
  pub approver_snapshot : Option ActorSnapshot
  pub status : ApprovalStatus
  pub binding_checksum : ℕ
  pub expires_at : ℕ
  pub decided_at : Option ℕ
  pub decision_reason : String
  pub mfa_verified : Bool
  pub recent_auth_at : Option ℕ

-- A command with the rows that refer to it, the newest event and attempt first.
pub record CommandRow : Type 0 where
  pub command : Command
  pub events : List CommandEvent
  pub outbox : Option Outbox
  pub attempts : List Attempt
  pub approval : Option Approval

-- The columns of `Gateway` that remote control reads.
pub record Gateway : Type 0 where
  pub pk : ℕ
  pub team_id : ℕ
  pub site : Option ℕ
  pub lifecycle_status : String
  pub remote_control_protocol_version : ℕ
  pub remote_control_capabilities : List String
  pub remote_control_local_writeback_enabled : Bool
  pub remote_control_policy_loaded : Bool
  pub remote_control_epoch : ℕ
  pub remote_control_policy_revision : ℕ
  pub remote_control_clock_ready : Bool
  pub remote_control_journal_ready : Bool
  pub remote_control_storage_healthy : Bool

-- The columns of `Device` that remote control reads.
pub record Device : Type 0 where
  pub pk : ℕ
  pub team_id : ℕ
  pub gateway_id : Option ℕ
  pub site : Option ℕ
  pub template_id : Option ℕ
  pub name : String

-- A refusal: the machine-readable code and the text for people.
pub record Denial : Type 0 where
  pub code : String
  pub message : String
