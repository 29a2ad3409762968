-- ===== src/RemoteControl/Dispatch/Defects.antt =====
-- apps/devices/remote_control.py: interleavings of `dispatch_outbox` with a worker that is late.
use novena_hub.Prelude.{
  ℕ, ◌+◌, ◌≤◌, ◌<◌, ◌≡◌, refl, true, String, Option, none, some, arith, le→leb,
}
use novena_hub.RemoteControl.Types.{Status, OutboxStatus, EventPayload, Outbox, CommandRow, Denial}
use novena_hub.RemoteControl.Catalog.{CommandDefinition, catalog_get}
use novena_hub.RemoteControl.Events.{append_event}
use novena_hub.RemoteControl.Revalidation.{dispatch_revalidation_error, defined_error}
use novena_hub.RemoteControl.Dispatch.{Settings, is_due, retry_delay}
use novena_hub.RemoteControl.Dispatch.Claim.{
  settled, Context, cancel_claim, refused_status, revalidate, claim_outbox, claim_found, claim_row,
}
use novena_hub.RemoteControl.Dispatch.Record.{record_pre_ack_failure}
use novena_hub.RemoteControl.Dispatch.Safety.{refusal}

expired_refused :
    (checked_at : ℕ) (ctx : Context) (row : CommandRow) (d : CommandDefinition)
    → catalog_get row.command.operation ≡ some d
    → row.command.expires_at ≤ checked_at
    → (x : Denial) × (refusal checked_at ctx row ≡ some x) × (x.code ≡ "command_expired")
unfolding dispatch_revalidation_error defined_error
expired_refused checked_at ctx row d known late = (
  record { code = "command_expired"; message = "The command expired before dispatch." },
  ground (arith, le→leb _ _ late),
  refl,
)

module _ (digest : EventPayload → ℕ) where
  claim_refused :
      (s : Settings) (now checked_at : ℕ) (ctx : Context) (row : CommandRow) (o : Option Outbox)
      {outbox : Outbox} {d : Denial}
      → o ≡ some outbox
      → is_due outbox now ≡ true
      → outbox.attempt_count < s.max_attempts
      → refusal checked_at ctx row ≡ some d
      → claim_found digest s now checked_at ctx o row ≡ settled (cancel_claim digest d outbox row)
  unfolding claim_found claim_outbox revalidate
  claim_refused s now checked_at ctx row none e due left r = cc
  claim_refused s now checked_at ctx row (some o) {outbox} {d} e due left r = ground arith

  cancel_claim_expired :
      (x : Denial) (outbox : Outbox) (row : CommandRow)
      → x.code ≡ "command_expired"
      → (cancel_claim digest x outbox row).command.status ≡ Status.expired
  unfolding cancel_claim append_event refused_status
  cancel_claim_expired x outbox row code = simp code

  -- A claim after the expiry of a command makes it expired, whatever its status is: also one that the
  -- Gateway has already verified.
  pub late_claim_expires :
      (s : Settings) (now checked_at : ℕ) (ctx : Context) (row : CommandRow) (outbox : Outbox)
      (d : CommandDefinition)
      → row.outbox ≡ some outbox
      → is_due outbox now ≡ true
      → outbox.attempt_count < s.max_attempts
      → catalog_get row.command.operation ≡ some d
      → row.command.expires_at ≤ checked_at
      → (row' : CommandRow) × (claim_row digest s now checked_at ctx row ≡ settled row')
        × (row'.command.status ≡ Status.expired)
  unfolding claim_row
  late_claim_expires s now checked_at ctx row outbox d found due left known late =
      let (x, refused, code) = expired_refused checked_at ctx row d known late in
      (
        cancel_claim digest x outbox row,
        claim_refused s now checked_at ctx row row.outbox found due left refused,
        cancel_claim_expired x outbox row code,
      )

  -- A failure that is recorded on an outbox row already published, with attempts left, makes the row
  -- due again once the delay has passed.
  pub late_failure_reopens :
      (s : Settings) (now attempt t : ℕ) (error : String) (outbox : Outbox) (row : CommandRow)
      → outbox.status ≡ OutboxStatus.published
      → outbox.attempt_count < s.max_attempts
      → now + retry_delay s outbox.attempt_count ≤ t
      → (o : Outbox) × ((record_pre_ack_failure digest s now attempt error outbox row).outbox
          ≡ some o)
        × (is_due o t ≡ true)
  unfolding record_pre_ack_failure append_event is_due
  late_failure_reopens s now attempt t error outbox row done left late = (
    record outbox {
      last_error = error;
      claimed_at = none;
      lease_expires_at = none;
      status = OutboxStatus.retry;
      next_attempt_at = now + retry_delay s outbox.attempt_count;
    },
    ground arith,
    ground arith,
  )
