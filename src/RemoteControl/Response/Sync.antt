-- ===== src/RemoteControl/Response/Sync.antt =====
-- apps/devices/services.py: `sync_device_command_from_rpc`, and `check_rpc_timeouts` of
-- apps/devices/tasks.py.
use Prim.Native.String.{◌++◌ as append}
use novena_hub.Prelude.{
  ℕ, ◌-◌, Bool, true, false, not, ◌&&◌, ◌||◌, String, Option, none, some, str_eq, ltb, seconds,
  is_some, if◌then◌else◌,
}
use novena_hub.Json.{Json, Fields, field, end, text}
use novena_hub.RemoteControl.Types.{Status, EventPayload, CommandRow}
use novena_hub.RemoteControl.Protocol.{gateway_stage_to_command_status}
use novena_hub.RemoteControl.Transition.{
  Updates, no_updates, Request, apply_updates, transition_command,
}
use novena_hub.RemoteControl.Response.{Rpc, Mirror, Exchange}

-- `value or default`
abbrev pub text_or : String → String → String
text_or value default = if str_eq value "" then default else value

-- `response_payload`
unfoldable pub response_fields : Rpc → Fields
response_fields r = field "status" (text r.status) (
    field "stage" (text r.response_stage)
      (field "result" r.result (field "error" (text r.error_message) end)))

-- The status that a result leads to, with the error code and text.
pub record Verdict : Type 0 where
  pub target : Option Status
  pub error_code : String
  pub error_message : String

unfoldable pub verdict_of_stage : Rpc → Option Status → Verdict
verdict_of_stage r (some Status.rejected) = record {
  target = some Status.rejected;
  error_code = "gateway_rejected";
  error_message = text_or r.error_message "Gateway command failed.";
}
verdict_of_stage r (some Status.failed) = record {
  target = some Status.failed;
  error_code = "gateway_failed";
  error_message = text_or r.error_message "Gateway command failed.";
}
verdict_of_stage r target = record { target = target; error_code = ""; error_message = "" }

unfoldable pub verdict : Rpc → Verdict
unfolding verdict_of_stage gateway_stage_to_command_status
verdict r =
    let target = gateway_stage_to_command_status r.response_stage in
    if str_eq r.status "timeout"
    then record {
      target = some Status.outcome_unknown;
      error_code = "gateway_timeout";
      error_message = text_or r.error_message "Timed out waiting for Gateway response.";
    }
    else if str_eq r.status "error" && not (is_some target)
    then record {
      target = some Status.failed;
      error_code = "gateway_failed";
      error_message = text_or r.error_message "Gateway command failed.";
    }
    else verdict_of_stage r target

-- The statuses that complete a command.
unfoldable pub completes : Status → Bool
completes Status.verified = true
completes Status.action_completed = true
completes Status.rejected = true
completes Status.failed = true
completes _ = false

-- `rpc_record.responded_at or timezone.now()`
abbrev pub moment : ℕ → Rpc → ℕ
moment now r = elim r.responded_at [ none ↦ now | some at ↦ at ]

abbrev verdict_updates : ℕ → Rpc → Verdict → Updates
verdict_updates now r v = record no_updates {
  response_payload = some (Json.obj (response_fields r));
  error_code = some v.error_code;
  error_message = some v.error_message;
}

unfoldable pub target_updates : ℕ → Rpc → Verdict → Status → Updates
unfolding response_fields completes
target_updates now r v target = record (verdict_updates now r v) {
  completed_at = if completes target then some (moment now r) else none;
}

-- What the function asks of `transition_command`.
unfoldable pub sync_request : ℕ → Rpc → Verdict → Status → Request
unfolding response_fields target_updates
sync_request now r v target = record {
  to_status = target;
  event_type = append "gateway_" (text_or r.response_stage r.status);
  actor = none;
  evidence = response_fields r;
  updates = target_updates now r v target;
}

module _ (digest : EventPayload → ℕ) where
  unfoldable pub sync_governed_as : ℕ → Rpc → Verdict → Option Status → CommandRow → CommandRow
  unfolding sync_request response_fields apply_updates transition_command
  sync_governed_as now r v (some target) row =
      (transition_command digest (sync_request now r v target) row).0
  sync_governed_as now r v none row = record row {
    command = apply_updates (verdict_updates now r v) row.command;
  }

  -- The part of `sync_device_command_from_rpc` on the governed command.
  unfoldable pub sync_governed : ℕ → Rpc → CommandRow → CommandRow
  unfolding verdict sync_governed_as
  sync_governed now r row = sync_governed_as now r (verdict r) (verdict r).target row

-- The part of `sync_device_command_from_rpc` on the device command.
unfoldable pub sync_mirror : ℕ → Rpc → Mirror → Mirror
unfolding response_fields
sync_mirror now r m =
    let answered = record m { response_payload = Json.obj (response_fields r) } in
    if str_eq r.status "success"
      && (str_eq r.response_stage "field_execution_verified"
          || (str_eq r.response_stage "gateway_action_completed"
              || str_eq r.response_stage "diagnostic_completed"))
    then record answered {
      status = "executed";
      error_message = "";
      executed_at = some (moment now r);
    }
    else if str_eq r.status "success"
        && (str_eq r.response_stage "field_protocol_accepted"
            || str_eq r.response_stage "ota_initiated")
    then record answered { status = "accepted"; error_message = "" }
    else if str_eq r.status "timeout"
    then record answered {
      status = "timed_out";
      error_message = text_or r.error_message "Timed out waiting for gateway response.";
    }
    else if str_eq r.status "error"
    then record answered {
      status = "failed";
      error_message = text_or r.error_message "Gateway command failed.";
      executed_at = some (moment now r);
    }
    else m

abbrev pub over {ℓ} : {A : Type ℓ} → (A → A) → Option A → Option A
over f none = none
over f (some a) = some (f a)

module _ (digest : EventPayload → ℕ) where
  -- `sync_device_command_from_rpc`
  unfoldable pub sync_device_command_from_rpc : ℕ → Exchange → Exchange
  unfolding sync_governed sync_mirror
  sync_device_command_from_rpc now x = record x {
    governed = over (sync_governed digest now x.rpc) x.governed;
    mirror = over (sync_mirror now x.rpc) x.mirror;
  }

  -- `check_rpc_timeouts`, on one RPC.
  unfoldable pub check_rpc_timeout : ℕ → Exchange → Exchange
  unfolding sync_device_command_from_rpc
  check_rpc_timeout now x =
      if str_eq x.rpc.status "pending" && ltb x.rpc.sent_at (now - seconds 60)
      then sync_device_command_from_rpc now (record x {
        rpc = record x.rpc {
          status = "timeout";
          error_message = text_or x.rpc.error_message "Timed out waiting for gateway response.";
        };
      })
      else x
