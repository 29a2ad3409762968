-- ===== src/RemoteControl/Dispatch/Claim.antt =====
-- apps/devices/remote_control.py: the first transaction of `dispatch_outbox`.
use novena_hub.Prelude.{
  ℕ, ◌+◌, String, Option, none, some, ◌∷◌, leb, ltb, str_eq, seconds, if◌then◌else◌,
}
use novena_hub.Json.{field, end, int, text}
use novena_hub.Teams.Types.{Team}
use novena_hub.RemoteControl.Types.{
  Status, OutboxStatus, EventPayload, Outbox, Attempt, CommandRow, Gateway, Device, Denial,
}
use novena_hub.RemoteControl.Catalog.{status_order}
use novena_hub.RemoteControl.Events.{append_event}
use novena_hub.RemoteControl.Governance.{Governance}
use novena_hub.RemoteControl.Revalidation.{dispatch_revalidation_error}
use novena_hub.RemoteControl.Dispatch.{Settings, move_up_to, is_due, text_or}

-- The rows that the transaction locks beside the command's own.
pub record Context : Type 0 where
  pub team : Team
  pub gateway : Gateway
  pub device : Option Device
  pub governance : Governance

-- How the transaction ends: `dispatch_outbox` returns `None`, or the command at once, or goes on
-- to publish as the attempt of the given number.
pub data Claim : Type 0 where
  skipped : Claim
  settled : CommandRow → Claim
  claimed_as : ℕ → CommandRow → Claim

-- The status of a command whose claim is refused.
unfoldable pub refused_status : String → Status
refused_status code = if str_eq code "command_expired" then Status.expired else Status.cancelled

module _ (digest : EventPayload → ℕ) where
  -- `_cancel_claim_locked`
  unfoldable pub cancel_claim : Denial → Outbox → CommandRow → CommandRow
  unfolding refused_status
  cancel_claim d outbox row =
      append_event digest
        (record {
          event_type = "dispatch_cancelled";
          actor = none;
          from_status = some row.command.status;
          to_status = some (refused_status d.code);
          evidence = field "code" (text d.code) (field "message" (text d.message) end);
        })
        (record row {
          outbox = some (record outbox {
            status = OutboxStatus.cancelled;
            last_error = d.message;
            lease_expires_at = none;
          });
          command = record row.command {
            status = refused_status d.code;
            transport_status = "cancelled";
            error_code = d.code;
            error_message = d.message;
          };
        })

  -- The branch of a claim whose expired leases have used up the attempts.
  unfoldable pub exhaust_leases : ℕ → Outbox → CommandRow → CommandRow
  unfolding move_up_to
  exhaust_leases now outbox row =
      let last_error =
        text_or outbox.last_error "Expired worker leases exhausted dispatch attempts." in
      let status = move_up_to Status.dispatching Status.failed row.command.status in
      append_event digest
        (record {
          event_type = "outbox_dead_lettered";
          actor = none;
          from_status = some row.command.status;
          to_status = some status;
          evidence =
              field "attempt" (int outbox.attempt_count)
                (field "reason" (text "expired_worker_lease") end);
        })
        (record row {
          outbox = some (record outbox {
            status = OutboxStatus.dead_letter;
            dead_lettered_at = some now;
            lease_expires_at = none;
            last_error = last_error;
          });
          command = record row.command {
            status = status;
            transport_status = "dead_letter";
            error_code = "dispatch_attempts_exhausted";
            error_message = last_error;
          };
        })

  -- `if STATUS_ORDER[status] < STATUS_ORDER[DISPATCHING]`: the command enters dispatch.
  unfoldable pub enter_dispatch : ℕ → CommandRow → CommandRow
  unfolding status_order
  enter_dispatch attempt row =
      if ltb (status_order row.command.status) (status_order Status.dispatching)
      then append_event digest
          (record {
            event_type = "dispatch_claimed";
            actor = none;
            from_status = some row.command.status;
            to_status = some Status.dispatching;
            evidence = field "attempt" (int attempt) end;
          })
          (record row { command = record row.command { status = Status.dispatching } })
      else row

  abbrev new_attempt : ℕ → Attempt
  new_attempt n = record {
    attempt_number = n;
    request_id = none;
    state = "started";
    error = "";
    completed_at = none;
  }

  -- The row is leased to this worker, and the attempt is recorded.
  unfoldable pub take_lease : Settings → ℕ → Outbox → CommandRow → CommandRow
  unfolding enter_dispatch
  take_lease s now outbox row =
      let attempt = outbox.attempt_count + 1 in
      let entered = enter_dispatch attempt row in
      record entered {
        outbox = some (record outbox {
          status = OutboxStatus.claimed;
          claimed_at = some now;
          lease_expires_at = some (now + seconds s.lease_seconds);
          attempt_count = attempt;
        });
        command = record entered.command { transport_status = "dispatching" };
        attempts = new_attempt attempt ∷ entered.attempts;
      }

  unfoldable pub revalidate : Settings → ℕ → Option Denial → Outbox → CommandRow → Claim
  unfolding cancel_claim take_lease
  revalidate s now (some d) outbox row = settled (cancel_claim d outbox row)
  revalidate s now none outbox row =
      claimed_as (outbox.attempt_count + 1) (take_lease s now outbox row)

  -- `now` is read when the call begins, `checked_at` by the checks inside it.
  unfoldable pub claim_outbox : Settings → ℕ → ℕ → Context → Outbox → CommandRow → Claim
  unfolding exhaust_leases revalidate is_due
  claim_outbox s now checked_at ctx outbox row =
      if is_due outbox now
      then (if leb s.max_attempts outbox.attempt_count
          then settled (exhaust_leases now outbox row)
          else revalidate s now
              (dispatch_revalidation_error checked_at ctx.governance row.command ctx.team
                ctx.gateway ctx.device)
              outbox row)
      else skipped

  -- `if not outbox: return None`
  unfoldable pub claim_found : Settings → ℕ → ℕ → Context → Option Outbox → CommandRow → Claim
  unfolding claim_outbox
  claim_found s now checked_at ctx none row = skipped
  claim_found s now checked_at ctx (some outbox) row = claim_outbox s now checked_at ctx outbox row

  unfoldable pub claim_row : Settings → ℕ → ℕ → Context → CommandRow → Claim
  unfolding claim_found
  claim_row s now checked_at ctx row = claim_found s now checked_at ctx row.outbox row
