-- ===== src/RemoteControl/Dispatch/Outcomes.antt =====
-- apps/devices/remote_control.py: proofs on what `dispatch_outbox` records of the broker's answer.
use novena_hub.Prelude.{
  List, ℕ, ◌+◌, ◌≤◌, ◌<◌, ◌≡◌, inl, inr, refl, String, Option, none, some, arith, leb, Bool-cases,
  le→leb,
}
use novena_hub.RemoteControl.Types.{Status, OutboxStatus, EventPayload, Outbox, CommandRow}
use novena_hub.RemoteControl.Catalog.{status_order}
use novena_hub.RemoteControl.Events.{append_event}
use novena_hub.RemoteControl.Dispatch.{Settings, is_due, retry_delay}
use novena_hub.RemoteControl.Dispatch.Claim.{skipped, Context, claim_row}
use novena_hub.RemoteControl.Dispatch.Record.{
  Outcome, acknowledged, unknown, failed, record_with, record_found, record_outcome,
  record_acknowledged, record_outcome_unknown, record_pre_ack_failure,
}
use novena_hub.RemoteControl.Transition.{Request}
use novena_hub.RemoteControl.Dispatch.Record.{transition_all}
use novena_hub.RemoteControl.Dispatch.Meanwhile.{IsFinished, IsFinished-skips}

-- The broker acknowledged the message, or may have received it.
abbrev pub MayBeDelivered : Outcome → Type 0
MayBeDelivered (acknowledged g r) = Unit {0}
MayBeDelivered (unknown g r e) = Unit {0}
MayBeDelivered (failed g e) = ⊥

module _ (digest : EventPayload → ℕ) where
  delivered_found :
      (s : Settings) (later attempt : ℕ) (o : Outcome) (found : Option Outbox) (row : CommandRow)
      → MayBeDelivered o
      → {outbox : Outbox} → found ≡ some outbox
      → IsFinished (record_found digest s later attempt o found row)
  unfolding record_found record_with record_acknowledged record_outcome_unknown append_event is_due
  delivered_found s later attempt o none row d e = cc
  delivered_found s later attempt (acknowledged g r) (some o) row d e = (
    record o {
      status = OutboxStatus.published;
      published_at = some later;
      lease_expires_at = none;
    },
    refl,
    λ t. refl,
  )
  delivered_found s later attempt (unknown g r x) (some o) row d e = (
    record o { status = OutboxStatus.published; last_error = x; lease_expires_at = none },
    refl,
    λ t. refl,
  )
  delivered_found s later attempt (failed g x) (some o) row d e = absurd d

  pub delivered-IsFinished :
      (s : Settings) (later attempt : ℕ) (o : Outcome) (row : CommandRow) (outbox : Outbox)
      → MayBeDelivered o
      → row.outbox ≡ some outbox
      → IsFinished (record_outcome digest s later attempt o row)
  unfolding record_outcome
  delivered-IsFinished s later attempt o row outbox d e =
      delivered_found s later attempt o row.outbox row d e

  -- Once it is recorded on a row with an outbox that the broker has acknowledged the message or may
  -- have received it, and after any reports of the Gateway on the row that was recorded, a claim is
  -- skipped, at any time, under any settings and for any tables.
  pub no_retry_after_ambiguity :
      (s s' : Settings) (later attempt now checked_at : ℕ) (ctx : Context) (o : Outcome)
      (rs : List Request) (row : CommandRow) (outbox : Outbox)
      → MayBeDelivered o
      → row.outbox ≡ some outbox
      → claim_row digest s' now checked_at ctx
          (transition_all digest rs (record_outcome digest s later attempt o row))
        ≡ skipped
  no_retry_after_ambiguity s s' later attempt now checked_at ctx o rs row outbox d e =
      IsFinished-skips digest s' now checked_at ctx rs (record_outcome digest s later attempt o row)
        (delivered-IsFinished s later attempt o row outbox d e)

  -- The state of an outbox row after a failure, as the settings and the attempts decide it.
  pub record IsRescheduled (s : Settings) (now count : ℕ) (outbox : Outbox) : Type 0 where
    pub retried : outbox.status ≡ OutboxStatus.retry
    pub counted : outbox.attempt_count ≡ count
    pub next : outbox.next_attempt_at ≡ now + retry_delay s count
    pub unleased : outbox.lease_expires_at ≡ none

  -- A failure before the acknowledgement either schedules the retry or, once the attempts are used
  -- up, ends the delivery; a command that was still on its way to the broker has then failed.
  pub data AfterFailure (s : Settings) (now : ℕ) (outbox : Outbox) (row row' : CommandRow)
      : Type 0 where
    rescheduled :
        (o : Outbox)
        → outbox.attempt_count < s.max_attempts
        → row'.outbox ≡ some o
        → IsRescheduled s now outbox.attempt_count o
        → row'.command.status ≡ row.command.status
        → AfterFailure s now outbox row row'
    ended :
        (o : Outbox)
        → s.max_attempts ≤ outbox.attempt_count
        → row'.outbox ≡ some o
        → o.status ≡ OutboxStatus.dead_letter
        → (status_order row.command.status ≤ 4 → row'.command.status ≡ Status.failed)
        → (4 < status_order row.command.status → row'.command.status ≡ row.command.status)
        → AfterFailure s now outbox row row'

  -- The row that a failure leaves.
  abbrev failed_outbox : String → Outbox → Outbox
  failed_outbox error outbox = record outbox {
    last_error = error;
    claimed_at = none;
    lease_expires_at = none;
  }

  -- A failure before the acknowledgement schedules a retry after the delay when attempts are left, and
  -- leaves the status of the command; otherwise it ends the delivery, and a command that had not gone
  -- beyond dispatching is failed while any other keeps its status.
  pub record_failure-AfterFailure :
      (s : Settings) (now attempt : ℕ) (error : String) (outbox : Outbox) (row : CommandRow)
      → AfterFailure s now outbox row (record_pre_ack_failure digest s now attempt error outbox row)
  unfolding record_pre_ack_failure append_event
  record_failure-AfterFailure s now attempt error outbox row =
      elim (Bool-cases (leb s.max_attempts outbox.attempt_count)) [
        | inl spent ↦ rw spent (
            ended
              (record (failed_outbox error outbox) {
                status = OutboxStatus.dead_letter;
                dead_lettered_at = some now;
              })
              (ground arith) refl refl (λ early. ground (arith, le→leb _ _ early))
              (λ late. ground arith))
        | inr left ↦ rw left (
            rescheduled
              (record (failed_outbox error outbox) {
                status = OutboxStatus.retry;
                next_attempt_at = now + retry_delay s outbox.attempt_count;
              })
              (ground arith) refl
              (record { retried = refl; counted = refl; next = refl; unleased = refl }) refl)
      ]
