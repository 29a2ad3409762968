-- ===== src/Readiness/Approve.antt =====
-- apps/devices/control_readiness.py: the second pair of eyes on a command. `checksum` is SHA-256
-- over the canonical JSON text of a document, `payload_checksum`.
pub mod Control
use novena_hub.Prelude.{
  ℕ, ◌+◌, ◌-◌, min, Bool, true, false, not, ◌||◌, String, Option, none, some, ltb, leb, ◌==◌,
  refers, minutes, List, if◌then◌else◌,
}
use novena_hub.Json.{Json, Fields, field, end, int}
use novena_hub.Teams.Types.{Team, User, Membership}
use novena_hub.Teams.Roles.{has_permission}
use novena_hub.RemoteControl.Types.{
  Status, Risk, EventPayload, Command, CommandRow, Gateway, Approval, ApprovalStatus, Outbox,
  OutboxStatus, Denial,
}
use novena_hub.RemoteControl.Events.{actor_snapshot, append_event}
use novena_hub.Readiness.Types.{
  Result, ok, denied, integrity_error, does_not_exist, deny_with, atomic,
}

-- The document of `command_binding`.
pub record Binding : Type 0 where
  pub command_id : ℕ
  pub operation : String
  pub gateway_id : ℕ
  pub device_id : Option ℕ
  pub command_key : String
  pub value : Json
  pub current_value : Option Json
  pub control_epoch : ℕ
  pub template_revision : ℕ
  pub commissioning_revision : ℕ
  pub policy_revision : ℕ
  pub policy_checksum : String
  pub expires_at : ℕ

-- `current` is the last value of the key in the metadata of the device.
unfoldable pub binding_of : Command → Option Json → Binding
binding_of c current = record {
  command_id = c.pk;
  operation = c.operation;
  gateway_id = c.gateway_id;
  device_id = c.device_id;
  command_key = c.command_key;
  value = c.normalized_value;
  current_value = current;
  control_epoch = c.control_epoch;
  template_revision = c.template_revision;
  commissioning_revision = c.commissioning_revision;
  policy_revision = c.policy_revision;
  policy_checksum = c.policy_checksum;
  expires_at = c.expires_at;
}

abbrev approval_permission : Risk → String
approval_permission Risk.critical = "approve_critical_commands"
approval_permission _ = "approve_high_risk_commands"

-- `not recent_auth_at or timezone.now() - recent_auth_at > timedelta(minutes=5)`
abbrev pub auth_is_stale : Option ℕ → ℕ → Bool
auth_is_stale none now = true
auth_is_stale (some t) now = ltb (t + minutes 5) now

-- What the approver brings: the second factor, the time of the last authentication, a reason.
pub record Decision : Type 0 where
  pub mfa_verified : Bool
  pub recent_auth_at : Option ℕ
  pub reason : String

-- The default values of a new `CommandOutbox`.
unfoldable pub new_outbox : ℕ → Outbox
new_outbox now = record {
  status = OutboxStatus.pending;
  attempt_count = 0;
  next_attempt_at = now;
  claimed_at = none;
  lease_expires_at = none;
  published_at = none;
  dead_lettered_at = none;
  last_error = "";
}

module _ (digest : EventPayload → ℕ) (checksum : Binding → ℕ) where
  unfoldable pub create_approval : ℕ → ℕ → Option Json → CommandRow → CommandRow
  unfolding binding_of
  create_approval pk now current row = record row {
    approval = some (record {
      pk = pk;
      requested_by_snapshot = row.command.actor_snapshot;
      approver = none;
      approver_snapshot = none;
      status = ApprovalStatus.pending;
      binding_checksum = checksum (binding_of row.command current);
      expires_at = min row.command.expires_at (now + minutes 15);
      decided_at = none;
      decision_reason = "";
      mfa_verified = false;
      recent_auth_at = none;
    });
  }

  -- The writes of an approval that passes; a command that has an outbox already violates its key.
  unfoldable pub grant :
      ℕ → User → Decision → Approval → Option Outbox → CommandRow → Result (Unit {0}) × CommandRow
  grant now approver decision approval (some _) row = (integrity_error, row)
  grant now approver decision approval none row = (
    ok tt,
    append_event digest
        (record {
          event_type = "command_approved";
          actor = some approver;
          from_status = some row.command.status;
          to_status = some Status.queued;
          evidence = field "approval_id" (int approval.pk) end;
        })
        (record row {
          approval = some (record approval {
            status = ApprovalStatus.approved;
            approver = some approver.pk;
            approver_snapshot = some (actor_snapshot (some approver));
            decided_at = some now;
            decision_reason = decision.reason;
            mfa_verified = true;
            recent_auth_at = decision.recent_auth_at;
          });
          command = record row.command { status = Status.queued };
          outbox = some (new_outbox now);
        }),
  )

  abbrev mark : ApprovalStatus → Approval → CommandRow → CommandRow
  mark status approval row = record row { approval = some (record approval { status = status }) }

  -- The body of `approve_command`, below the reading of the two rows.
  unfoldable pub decide_approval :
      List Membership
      → ℕ
      → Team
      → Gateway
      → Option Json
      → User
      → Decision
      → Approval
      → CommandRow
      → Result (Unit {0}) × CommandRow
  decide_approval members now team gateway current approver decision approval row =
      if refers row.command.requested_by approver.pk
      then (deny_with "self_approval" "The requester cannot approve their own command.", row)
      else if not (
          has_permission members approver (some team) (approval_permission row.command.risk)
            gateway.site)
      then (deny_with "approval_permission_denied" "You cannot approve this command.", row)
      else if leb approval.expires_at now || leb row.command.expires_at now
      then (
        deny_with "approval_expired" "Approval request has expired.",
        mark ApprovalStatus.expired approval row,
      )
      else if not decision.mfa_verified
      then (deny_with "mfa_required" "MFA verification is required.", row)
      else if auth_is_stale decision.recent_auth_at now
      then (deny_with "recent_auth_required" "Recent authentication is required.", row)
      else if not (checksum (binding_of row.command current) == approval.binding_checksum)
      then (
        deny_with "approval_invalidated" "Command context changed; request approval again.",
        mark ApprovalStatus.invalidated approval row,
      )
      else grant now approver decision approval row.outbox row

  unfoldable pub approve_found :
      List Membership
      → ℕ
      → Team
      → Gateway
      → Option Json
      → User
      → Decision
      → Option Approval
      → CommandRow
      → Result (Unit {0}) × CommandRow
  unfolding decide_approval
  approve_found members now team gateway current approver decision none row = (does_not_exist, row)
  approve_found members now team gateway current approver decision (some approval) row =
      decide_approval members now team gateway current approver decision approval row

  -- `approve_command`
  unfoldable pub approve_command :
      List Membership
      → ℕ
      → Team
      → Gateway
      → Option Json
      → User
      → Decision
      → CommandRow
      → Result (Unit {0}) × CommandRow
  unfolding approve_found atomic
  approve_command members now team gateway current approver decision =
      atomic (λ r. approve_found members now team gateway current approver decision r.approval r)
