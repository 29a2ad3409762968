-- ===== src/RemoteControl/Dispatch/Record.antt =====
-- apps/devices/remote_control.py: what `dispatch_outbox` does after its claim. The MQTT publisher
-- and the signing of the envelope answer with an `Outcome`.
use novena_hub.Prelude.{
  ℕ, ◌+◌, String, Option, none, some, List, [], ◌∷◌, ◌==◌, leb, update_where, if◌then◌else◌,
}
use novena_hub.Json.{field, end, int, text}
use novena_hub.RemoteControl.Types.{Status, OutboxStatus, EventPayload, Outbox, Attempt, CommandRow}
use novena_hub.RemoteControl.Events.{append_event}
use novena_hub.RemoteControl.Transition.{Request, transition_command}
use novena_hub.RemoteControl.Dispatch.{Settings, retry_delay, move_up_to, raise_to}
use novena_hub.RemoteControl.Dispatch.Claim.{
  Claim, skipped, settled, claimed_as, Context, claim_row,
}

-- `signing_key_id` and `signature` of a signed envelope.
pub record Signature : Type 0 where
  pub key_id : String
  pub value : String

-- The broker has acknowledged; `MqttPublishOutcomeUnknown`; or any other exception, raised before
-- or after the envelope was signed. Texts are those of the exceptions.
pub data Outcome : Type 0 where
  acknowledged : Signature → (request_id : ℕ) → Outcome
  unknown : Signature → (request_id : ℕ) → (error : String) → Outcome
  failed : Option Signature → (error : String) → Outcome

-- `CommandTransportAttempt.objects...get(pk=attempt.pk)` and the assignments to it.
abbrev pub write_attempt : ℕ → (Attempt → Attempt) → List Attempt → List Attempt
write_attempt n = update_where (λ a. a.attempt_number == n)

module _ (digest : EventPayload → ℕ) where
  -- `RemoteCommand.objects.filter(pk=command.pk).update(signing_key_id=..., signature=...)`
  unfoldable pub store_signature : Signature → CommandRow → CommandRow
  store_signature g row = record row {
    command = record row.command { signing_key_id = g.key_id; signature = g.value };
  }

  abbrev dead_letter : ℕ → String → Outbox → CommandRow → CommandRow
  dead_letter now error outbox row =
      let status = move_up_to Status.dispatching Status.failed row.command.status in
      append_event digest
        (record {
          event_type = "outbox_dead_lettered";
          actor = none;
          from_status = some row.command.status;
          to_status = some status;
          evidence = field "attempt" (int outbox.attempt_count) (field "error" (text error) end);
        })
        (record row {
          outbox =
              some
                (record outbox { status = OutboxStatus.dead_letter; dead_lettered_at = some now });
          command = record row.command {
            status = status;
            transport_status = "dead_letter";
            error_code = "publish_attempts_exhausted";
            error_message = error;
          };
        })

  abbrev schedule_retry : Settings → ℕ → String → Outbox → CommandRow → CommandRow
  schedule_retry s now error outbox row =
      let next_attempt_at = now + retry_delay s outbox.attempt_count in
      append_event digest
        (record {
          event_type = "outbox_retry_scheduled";
          actor = none;
          from_status = some row.command.status;
          to_status = some row.command.status;
          evidence =
              field "attempt" (int outbox.attempt_count)
                (field "next_attempt_at" (int next_attempt_at) (field "error" (text error) end));
        })
        (record row {
          outbox =
              some
                (record outbox { status = OutboxStatus.retry; next_attempt_at = next_attempt_at });
          command = record row.command {
            transport_status = "retry_scheduled";
            error_code = "publish_failed_before_ack";
            error_message = error;
          };
        })

  -- `_record_pre_ack_failure`
  unfoldable pub record_pre_ack_failure :
      Settings → ℕ → ℕ → String → Outbox → CommandRow → CommandRow
  unfolding move_up_to
  record_pre_ack_failure s now attempt error outbox row =
      let row' = record row {
        attempts =
            write_attempt attempt
              (λ a. record a {
                state = "failed_before_ack";
                error = error;
                completed_at = some now;
              })
              row.attempts;
      } in
      let outbox' = record outbox {
        last_error = error;
        claimed_at = none;
        lease_expires_at = none;
      } in
      if leb s.max_attempts outbox.attempt_count
      then dead_letter now error outbox' row'
      else schedule_retry s now error outbox' row'

  -- The handler of `MqttPublishOutcomeUnknown`.
  unfoldable pub record_outcome_unknown : ℕ → ℕ → ℕ → String → Outbox → CommandRow → CommandRow
  unfolding move_up_to
  record_outcome_unknown now attempt request_id error outbox row =
      let status = move_up_to Status.outcome_unknown Status.outcome_unknown row.command.status in
      append_event digest
        (record {
          event_type = "broker_ack_unknown";
          actor = none;
          from_status = some row.command.status;
          to_status = some status;
          evidence = field "request_id" (int request_id) end;
        })
        (record row {
          attempts =
              write_attempt attempt
                (λ a. record a {
                  request_id = some request_id;
                  state = "outcome_unknown";
                  error = error;
                  completed_at = some now;
                })
                row.attempts;
          outbox = some (record outbox {
            status = OutboxStatus.published;
            last_error = error;
            lease_expires_at = none;
          });
          command = record row.command {
            status = status;
            transport_status = "outcome_unknown";
            error_code = "broker_ack_unknown";
            error_message = error;
          };
        })

  -- The last transaction of `dispatch_outbox`.
  unfoldable pub record_acknowledged : ℕ → ℕ → ℕ → Outbox → CommandRow → CommandRow
  unfolding raise_to
  record_acknowledged now attempt request_id outbox row =
      let status = raise_to Status.broker_acknowledged row.command.status in
      append_event digest
        (record {
          event_type = "broker_acknowledged";
          actor = none;
          from_status = some row.command.status;
          to_status = some status;
          evidence = field "rpc_request_id" (int request_id) end;
        })
        (record row {
          attempts =
              write_attempt attempt
                (λ a. record a {
                  request_id = some request_id;
                  state = "broker_acknowledged";
                  completed_at = some now;
                })
                row.attempts;
          outbox = some (record outbox {
            status = OutboxStatus.published;
            published_at = some now;
            lease_expires_at = none;
          });
          command = record row.command {
            status = status;
            transport_status = "broker_acknowledged";
            broker_acknowledged_at = some now;
          };
        })

  -- The signature that was stored before the publisher was called.
  unfoldable pub sign : Outcome → CommandRow → CommandRow
  unfolding store_signature
  sign (acknowledged g request_id) row = store_signature g row
  sign (unknown g request_id error) row = store_signature g row
  sign (failed (some g) error) row = store_signature g row
  sign (failed none error) row = row

  unfoldable pub record_with : Settings → ℕ → ℕ → Outcome → Outbox → CommandRow → CommandRow
  unfolding record_acknowledged record_outcome_unknown record_pre_ack_failure
  record_with s now attempt (acknowledged g request_id) outbox row =
      record_acknowledged now attempt request_id outbox row
  record_with s now attempt (unknown g request_id error) outbox row =
      record_outcome_unknown now attempt request_id error outbox row
  record_with s now attempt (failed g error) outbox row =
      record_pre_ack_failure s now attempt error outbox row

  -- A missing outbox raises `DoesNotExist`, and the transaction writes nothing.
  unfoldable pub record_found : Settings → ℕ → ℕ → Outcome → Option Outbox → CommandRow → CommandRow
  unfolding record_with
  record_found s now attempt outcome none row = row
  record_found s now attempt outcome (some outbox) row =
      record_with s now attempt outcome outbox row

  unfoldable pub record_outcome : Settings → ℕ → ℕ → Outcome → CommandRow → CommandRow
  unfolding record_found
  record_outcome s now attempt outcome row = record_found s now attempt outcome row.outbox row

  -- What other transactions do to the command while the publisher works: the Gateway's answers.
  unfoldable pub transition_all : List Request → CommandRow → CommandRow
  transition_all [] row = row
  transition_all (r ∷ rest) row = transition_all rest (transition_command digest r row).0

  unfoldable pub publish_claim : Settings → ℕ → Outcome → List Request → Claim → Option CommandRow
  unfolding sign record_outcome transition_all
  publish_claim s later outcome meanwhile skipped = none
  publish_claim s later outcome meanwhile (settled row) = some row
  publish_claim s later outcome meanwhile (claimed_as attempt row) =
      some (record_outcome s later attempt outcome (transition_all meanwhile (sign outcome row)))

  -- `dispatch_outbox`
  unfoldable pub dispatch_outbox :
      Settings → ℕ → ℕ → ℕ → Context → Outcome → List Request → CommandRow → Option CommandRow
  unfolding claim_row publish_claim
  dispatch_outbox s now checked_at later ctx outcome meanwhile row =
      publish_claim s later outcome meanwhile (claim_row digest s now checked_at ctx row)
