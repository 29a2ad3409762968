-- ===== src/RemoteControl/Response/Handle.antt =====
-- apps/telemetry/management/commands/mqtt_consumer.py: `_handle_rpc_response`.
use novena_hub.Prelude.{
  ℕ, Bool, true, false, not, ◌&&◌, ◌||◌, String, Option, none, some, str_eq, ◌==◌, refers,
  if◌then◌else◌, ◌>>=◌,
}
use novena_hub.Json.{Json, Fields, field, end, text, get, as_object}
use novena_hub.RemoteControl.Types.{Status, EventPayload, Command, CommandRow}
use novena_hub.RemoteControl.Governance.{Governance, ControlScope, Activation, is_active_status}
use novena_hub.RemoteControl.Protocol.{gateway_stage_to_command_status}
use novena_hub.RemoteControl.Transition.{no_updates, Request, transition_command}
use novena_hub.RemoteControl.Events.{append_event}
use novena_hub.Readiness.Suspend.{suspend_scopes, suspend_activations}
use novena_hub.RemoteControl.Response.{
  Rpc, Exchange, Answer, or_default, response_status, response_stage, allowed_stage,
}
use novena_hub.RemoteControl.Response.Sync.{over, sync_device_command_from_rpc}

-- The scopes and the activations of the key of a command on a device.
abbrev pub of_scope : Command → ℕ → ControlScope → Bool
of_scope c device s =
    (s.team == c.team_id) && (refers s.device device && str_eq s.command_key c.command_key)

abbrev pub of_activation : Command → ℕ → Activation → Bool
of_activation c device a =
    (a.team == c.team_id)
    && ((a.device == device) && (str_eq a.command_key c.command_key && is_active_status a.status))

abbrev suspension : String
suspension = "Automatic suspension after post-write verification mismatch"

-- The suspension of the key.
unfoldable pub suspend_key : Command → ℕ → Governance → Governance
unfolding suspend_scopes suspend_activations
suspend_key c device g = record g {
  scopes = suspend_scopes (of_scope c device) suspension g.scopes;
  activations = suspend_activations (of_activation c device) suspension g.activations;
}

-- `(rpc_record.result or {}).get("verification", {})`, where it is a dictionary.
unfoldable pub verification_of : Json → Option Fields
unfolding as_object get
verification_of result = do fields ← as_object result; as_object (get fields "verification")

abbrev is_text : Json → String → Bool
is_text (Json.text t) s = str_eq t s
is_text _ s = false

abbrev pub is_mismatch : Fields → Bool
is_mismatch verification = is_text (get verification "status") "mismatch"

-- `if method and method != rpc_record.method`
unfoldable pub is_other_method : Option String → Rpc → Bool
is_other_method none r = false
is_other_method (some method) r = not (str_eq method "") && not (str_eq method r.method)

abbrev names : Rpc → Option String → Bool
names r none = false
names r (some id) = not (str_eq id "") && str_eq id r.request_id

abbrev comes_from : Rpc → Option ℕ → Bool
comes_from r none = true
comes_from r (some g) = r.gateway == g

-- The RPC that a response names: `get(request_id=..., gateway=...)`, or without a Gateway.
unfoldable pub is_answered : Option ℕ → Answer → Rpc → Bool
is_answered gateway a r = names r a.request_id && comes_from r gateway

-- The RPC with the answer.
unfoldable pub answered_rpc : ℕ → Answer → Rpc → Rpc
unfolding response_status response_stage allowed_stage
answered_rpc now a r = record r {
  status = response_status a;
  response_stage = if allowed_stage r.method (response_stage a) then response_stage a else "";
  result = a.result;
  error_message = a.error;
  responded_at = some now;
}

-- What the stage of a response asks of `transition_command`.
unfoldable pub stage_request : ℕ → Answer → Status → Request
unfolding response_stage response_status
stage_request now a target = record {
  to_status = target;
  event_type = response_stage a;
  actor = none;
  evidence =
      field "request_id" (text (or_default a.request_id ""))
        (field "status" (text (response_status a)) end);
  updates = record no_updates {
    execution_status = some (response_stage a);
    gateway_received_at = if str_eq (response_stage a) "gateway_received" then some now else none;
  };
}

-- `response_status in {"received", "processing"}`
abbrev pub is_interim : String → Bool
is_interim status = str_eq status "received" || str_eq status "processing"

module _ (digest : EventPayload → ℕ) where
  -- The stage of a response, as a transition of the command.
  unfoldable pub apply_stage : ℕ → Answer → Exchange → Exchange
  unfolding stage_request response_stage allowed_stage transition_command
      gateway_stage_to_command_status
  apply_stage now a x = elim (gateway_stage_to_command_status (response_stage a)) [
    | none ↦ x
    | some target ↦
        if allowed_stage x.rpc.method (response_stage a)
        then record x {
          governed =
              over (λ row. (transition_command digest (stage_request now a target) row).0)
                x.governed;
        }
        else x
  ]

  -- The event that tells of the suspension.
  unfoldable pub tell_suspension : Fields → CommandRow → CommandRow
  unfolding append_event
  tell_suspension verification row =
      append_event digest
        (record {
          event_type = "control_key_auto_suspended";
          actor = none;
          from_status = none;
          to_status = none;
          evidence = verification;
        })
        row

  unfoldable pub suspend_for : Fields → CommandRow → Option ℕ → Exchange → Exchange
  unfolding suspend_key tell_suspension
  suspend_for verification row none x = x
  suspend_for verification row (some device) x = record x {
    governance = suspend_key row.command device x.governance;
    governed = some (tell_suspension verification row);
  }

  -- The suspension after a verification that found another value; `get` on a verification that is
  -- no dictionary raises here, after the writes above.
  unfoldable pub check_verification : Option Fields → Option CommandRow → Exchange → Exchange
  unfolding suspend_for get
  check_verification none governed x = x
  check_verification (some verification) none x = x
  check_verification (some verification) (some row) x =
      if is_mismatch verification then suspend_for verification row row.command.device_id x else x

  -- The part below the stage: the RPC, the mirrors, and the verification.
  unfoldable pub conclude_response : ℕ → Answer → Exchange → Exchange
  unfolding answered_rpc sync_device_command_from_rpc verification_of check_verification
  conclude_response now a x =
      let synced =
        sync_device_command_from_rpc digest now (record x { rpc = answered_rpc now a x.rpc }) in
      check_verification (verification_of synced.rpc.result) synced.governed synced

  -- `_handle_rpc_response`, over the RPC that the request id may name.
  unfoldable pub handle_rpc_response : Option ℕ → ℕ → Answer → Exchange → Exchange
  unfolding is_answered is_other_method apply_stage conclude_response response_status
  handle_rpc_response gateway now a x =
      if not (is_answered gateway a x.rpc) || is_other_method a.method x.rpc
      then x
      else if is_interim (response_status a)
      then apply_stage now a x
      else conclude_response now a (apply_stage now a x)
