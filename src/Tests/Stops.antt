-- ===== src/Tests/Stops.antt =====
-- Runs of the guards around control: approval, activation, stop and reset.
use mathlib.Core.List.{Memᴰ}
use novena_hub.Prelude.{◌≡◌, ◌≢◌, ◌⊎◌, refl, true, false, none, some, [], ◌∷◌, arith, All}
use novena_hub.Json.{Fields}
use novena_hub.Teams.Types.{RemoteControlMode}
use novena_hub.Teams.Roles.{has_permission}
use novena_hub.Teams.Roles.Access.{IsGranted, has_permission_sound}
use novena_hub.RemoteControl.Types.{
  Risk, Status, OutboxStatus, Outbox, Approval, ApprovalStatus, CommandRow,
}
use novena_hub.RemoteControl.Catalog.{CommandDefinition, catalog_get}
use novena_hub.RemoteControl.Dispatch.{default_settings}
use novena_hub.RemoteControl.Dispatch.Claim.{claimed_as, claim_row, take_lease, Context}
use novena_hub.Readiness.Types.{ok, deny_with, AssessmentState, Assessment, SessionStatus}
use novena_hub.Readiness.Assessment.{
  Evidence, evidence_blockers, gateway_blockers, assess_control_readiness, waives,
}
use novena_hub.Readiness.Assessment.Ready.{IsPrepared, IsObserved, ready_is_earned}
use novena_hub.Readiness.Activate.{
  ControlState, write_activation, activate_control_key, new_activation,
}
use novena_hub.Readiness.Activate.Control.{IsEntitled, IsInstalled, activate_sound}
use novena_hub.Readiness.Approve.{Decision, binding_of, grant, approve_command}
use novena_hub.Readiness.Approve.Control.{
  IsApproved, IsQueued, approve_sound, approve_complete, expired_mark_is_lost,
}
use novena_hub.Readiness.Suspend.{
  StopScope, is_pending, stops_activation, emergency_disable, Hub, reset_row, lock_down,
  disaster_recovery_control_reset,
}
use novena_hub.Readiness.Suspend.Stop.{emergency_stop_blocks}
use novena_hub.Readiness.Suspend.Reset.{reset_blocks_writes, reset_misses_retry}
use novena_hub.Readiness.Suspend.Quiet.{IsQuiet, reset-IsQuiet}
use novena_hub.Tests.Fixtures.{
  tag, bind, admin, members, plant, edge, pump, governed, ctx, write, queued_row, waiting,
  write_definition, asked_approval, approval_row, ping_row,
}

admin_may : has_permission members admin (some plant) "toggle_remote_control" (some 5) ≡ true
unfolding has_permission
admin_may = refl

has_permission_sound_example : IsGranted members admin plant "toggle_remote_control" (some 5)
has_permission_sound_example =
    has_permission_sound members admin plant "toggle_remote_control" (some 5) admin_may

abbrev month : Evidence
month = record {
  observation_days = 3000;
  telemetry_coverage_percent = 9900;
  document = Fields.end;
  waiver_reason = "";
}

abbrev ready : Assessment
ready = record {
  team = 7;
  site = some 5;
  gateway = 11;
  state = AssessmentState.ready_for_commissioning;
  observation_days = 3000;
  telemetry_coverage_percent = 9900;
  evidence = Fields.end;
  blockers = [];
  waiver_reason = "";
  waiver_approved_by = none;
  assessed_by = 2;
}

ready_run : assess_control_readiness members admin plant edge (pump ∷ []) month ≡ ok ready
unfolding assess_control_readiness has_permission evidence_blockers gateway_blockers
ready_run = refl

ready_is_earned_example :
    (has_permission members admin (some plant) "perform_commissioning" (some 5) ≡ true)
    × IsPrepared edge plant (pump ∷ [])
    × (IsObserved month ⊎ (waives members admin plant edge month ≡ true))
ready_is_earned_example = ready_is_earned members admin plant edge (pump ∷ []) month ready_run refl

abbrev before_activation : ControlState
before_activation = record {
  team = record plant { remote_control_mode = RemoteControlMode.monitoring_only };
  assessment = record ready { state = AssessmentState.ready_for_activation };
  session = record {
    team = 7;
    site = some 5;
    gateway = 11;
    commissioner = 2;
    controls = record { device_id = 21; command_key = "setpoint" } ∷ [];
    evidence = Fields.end;
    status = SessionStatus.completed;
    expires_at = 1;
    completed_at = some 1;
  };
  governance = record governed { scopes = []; activations = [] };
  bundles =
      record {
        gateway = 11;
        revision = 2;
        control_epoch = 3;
        is_active = true;
        acknowledged_at = some 1;
      }
      ∷ [];
}

activate_run :
    (activate_control_key members 5 pump "setpoint" admin before_activation).0
    ≡ ok (new_activation 5 plant pump "setpoint")
unfolding activate_control_key has_permission write_activation
activate_run = refl

activate_sound_example :
    IsEntitled members pump "setpoint" admin before_activation
    × IsInstalled 5 pump "setpoint" before_activation
        (activate_control_key members 5 pump "setpoint" admin before_activation).1
activate_sound_example =
    activate_sound members 5 pump "setpoint" admin before_activation activate_run

abbrev fresh_decision : Decision
fresh_decision = record { mfa_verified = true; recent_auth_at = some 5; reason = "checked" }

approve_run :
    (approve_command tag bind members 9 plant edge none admin fresh_decision approval_row).0 ≡ ok tt
unfolding approve_command has_permission binding_of grant
approve_run = refl

approve_sound_example :
    (approval : Approval) × (some asked_approval ≡ some approval)
    × IsApproved tag bind members 9 plant edge none admin fresh_decision approval approval_row
    × IsQueued tag bind 9 approval_row
        (approve_command tag bind members 9 plant edge none admin fresh_decision approval_row).1
approve_sound_example =
    approve_sound tag bind members 9 plant edge none admin fresh_decision approval_row approve_run

-- A cancelled command whose request was invalidated.
abbrev void_approval : Approval
void_approval = record asked_approval { status = ApprovalStatus.invalidated }

abbrev void_row : CommandRow
void_row = record approval_row {
  command = record write { status = Status.cancelled };
  approval = some void_approval;
}

void_guards :
    IsApproved tag bind members 9 plant edge none admin fresh_decision void_approval void_row
unfolding has_permission binding_of
void_guards = record {
  other_person = refl;
  permitted = refl;
  request_lasts = ground arith;
  command_lasts = ground arith;
  second_factor = refl;
  recent = refl;
  bound = refl;
  undispatched = refl;
}

approve_complete_example :
    ((approve_command tag bind members 9 plant edge none admin fresh_decision void_row).0 ≡ ok tt)
    × IsQueued tag bind 9 void_row
        (approve_command tag bind members 9 plant edge none admin fresh_decision void_row).1
approve_complete_example =
    approve_complete tag bind members 9 plant edge none admin fresh_decision void_approval void_row
      refl void_guards

expired_mark_is_lost_example :
    approve_command tag bind members 60000001 plant edge none admin fresh_decision approval_row
    ≡ (deny_with "approval_expired" "Approval request has expired.", approval_row)
unfolding has_permission
expired_mark_is_lost_example =
    expired_mark_is_lost tag bind members 60000001 plant edge none admin fresh_decision
      asked_approval approval_row refl refl refl (ground arith)

abbrev everywhere : StopScope
everywhere = record { site = none; gateway = none; device = none }

abbrev stopped_context : Context
stopped_context = record ctx {
  team = (emergency_disable members admin "fire" everywhere (plant, governed)).1.0;
}

stop_run : (emergency_disable members admin "fire" everywhere (plant, governed)).0 ≡ ok 4
unfolding emergency_disable has_permission
stop_run = refl

emergency_stop_blocks_example :
    (claim_row tag default_settings 0 0 stopped_context queued_row ≢ claimed_as 1 queued_row)
    × All
        (λ a. stops_activation plant everywhere a ≡ false)
        (emergency_disable members admin "fire" everywhere (plant, governed)).1.1.activations
unfolding catalog_get
emergency_stop_blocks_example =
    emergency_stop_blocks tag members admin "fire" everywhere plant governed default_settings 0 0
      stopped_context queued_row write_definition 1 queued_row stop_run refl refl refl
      (ground arith)

abbrev restored : Hub
restored = record { rows = queued_row ∷ ping_row ∷ []; teams = plant ∷ []; governance = governed }

reset-IsQuiet_example :
    IsQuiet "restore" restored (disaster_recovery_control_reset "restore" restored).1
reset-IsQuiet_example = reset-IsQuiet "restore" restored

abbrev locked_context : Context
locked_context = record ctx { team = lock_down plant }

plant_locked : Memᴰ (lock_down plant) (disaster_recovery_control_reset "restore" restored).1.teams
unfolding disaster_recovery_control_reset
plant_locked = Memᴰ.head refl

reset_blocks_writes_example :
    claim_row tag default_settings 0 0 locked_context (reset_row "restore" queued_row)
    ≢ claimed_as 1 queued_row
unfolding catalog_get
reset_blocks_writes_example =
    reset_blocks_writes tag "restore" restored default_settings 0 0 locked_context queued_row
      write_definition 1 queued_row plant_locked refl refl

abbrev retried : Outbox
retried = record waiting { status = OutboxStatus.retry; attempt_count = 1 }

abbrev ping_definition : CommandDefinition
ping_definition = record {
  operation = "ping";
  risk = Risk.diagnostic;
  state_changing = false;
  permission = "request_low_risk_commands";
  device_required = false;
}

reset_misses_retry_example :
    ((reset_row "restore" ping_row).command.status ≡ Status.cancelled)
    × (claim_row tag default_settings 0 0 ctx (reset_row "restore" ping_row)
        ≡ claimed_as 2 (take_lease tag default_settings 0 retried (reset_row "restore" ping_row)))
unfolding catalog_get is_pending
reset_misses_retry_example =
    reset_misses_retry tag "restore" default_settings 0 0 ctx ping_row retried ping_definition refl
      refl refl (ground arith) (ground arith) refl refl refl refl refl (ground arith)
