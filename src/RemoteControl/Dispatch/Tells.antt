-- ===== src/RemoteControl/Dispatch/Tells.antt =====
-- apps/devices/remote_control.py: the events that the transactions of `dispatch_outbox` append.
use novena_hub.Prelude.{ℕ, ◌+◌, refl, Bool-cases, String, inl, inr, Option, none, some, leb, ltb}
use novena_hub.RemoteControl.Types.{Status, EventPayload, Outbox, CommandRow, Denial}
use novena_hub.RemoteControl.Catalog.{status_order}
use novena_hub.RemoteControl.Events.Trail.{Tells, silent, append_event-Tells, Tells-later}
use novena_hub.RemoteControl.Dispatch.{Settings, is_due}
use novena_hub.RemoteControl.Dispatch.Claim.{
  Claim, skipped, settled, claimed_as, Context, cancel_claim, exhaust_leases, enter_dispatch,
  take_lease, revalidate, claim_outbox, claim_found, claim_row,
}
use novena_hub.RemoteControl.Dispatch.Record.{
  Signature, Outcome, acknowledged, unknown, failed, store_signature, sign, record_pre_ack_failure,
  record_outcome_unknown, record_acknowledged, record_with, record_found, record_outcome,
}

-- Where a claim leaves the row.
abbrev pub claim_result : Claim → CommandRow → CommandRow
claim_result skipped row = row
claim_result (settled row') row = row'
claim_result (claimed_as n row') row = row'

module _ (digest : EventPayload → ℕ) where
  cancel_claim-Tells :
      (d : Denial) (outbox : Outbox) (row : CommandRow)
      → Tells digest row (cancel_claim digest d outbox row)
  unfolding cancel_claim
  cancel_claim-Tells d outbox row = append_event-Tells digest _ row _ refl refl refl refl

  exhaust_leases-Tells :
      (now : ℕ) (outbox : Outbox) (row : CommandRow)
      → Tells digest row (exhaust_leases digest now outbox row)
  unfolding exhaust_leases
  exhaust_leases-Tells now outbox row = append_event-Tells digest _ row _ refl refl refl refl

  enter_dispatch-Tells : (n : ℕ) (row : CommandRow) → Tells digest row (enter_dispatch digest n row)
  unfolding enter_dispatch
  enter_dispatch-Tells n row =
      elim (Bool-cases (ltb (status_order row.command.status) (status_order Status.dispatching))) [
        | inl early ↦ rw early (append_event-Tells digest _ row _ refl refl refl refl)
        | inr late ↦ rw late (silent refl refl refl)
      ]

  take_lease-Tells :
      (s : Settings) (now : ℕ) (outbox : Outbox) (row : CommandRow)
      → Tells digest row (take_lease digest s now outbox row)
  unfolding take_lease
  take_lease-Tells s now outbox row =
      Tells-later digest (enter_dispatch-Tells (outbox.attempt_count + 1) row) refl refl refl

  revalidate-Tells :
      (s : Settings) (now : ℕ) (d : Option Denial) (outbox : Outbox) (row : CommandRow)
      → Tells digest row (claim_result (revalidate digest s now d outbox row) row)
  unfolding revalidate
  revalidate-Tells s now none outbox row = take_lease-Tells s now outbox row
  revalidate-Tells s now (some d) outbox row = cancel_claim-Tells d outbox row

  claim_outbox-Tells :
      (s : Settings) (now checked_at : ℕ) (ctx : Context) (outbox : Outbox) (row : CommandRow)
      → Tells digest row (claim_result (claim_outbox digest s now checked_at ctx outbox row) row)
  unfolding claim_outbox
  claim_outbox-Tells s now checked_at ctx outbox row = elim (Bool-cases (is_due outbox now)) [
    | inr early ↦ rw early (silent refl refl refl)
    | inl due ↦ elim (Bool-cases (leb s.max_attempts outbox.attempt_count)) [
      | inl spent ↦ rw (due, spent) (exhaust_leases-Tells now outbox row)
      | inr left ↦ rw (due, left) (revalidate-Tells s now _ outbox row)
    ]
  ]

  claim_found-Tells :
      (s : Settings) (now checked_at : ℕ) (ctx : Context) (o : Option Outbox) (row : CommandRow)
      → Tells digest row (claim_result (claim_found digest s now checked_at ctx o row) row)
  unfolding claim_found
  claim_found-Tells s now checked_at ctx none row = silent refl refl refl
  claim_found-Tells s now checked_at ctx (some outbox) row =
      claim_outbox-Tells s now checked_at ctx outbox row

  -- A claim, however it ends.
  pub claim_row-Tells :
      (s : Settings) (now checked_at : ℕ) (ctx : Context) (row : CommandRow)
      → Tells digest row (claim_result (claim_row digest s now checked_at ctx row) row)
  unfolding claim_row
  claim_row-Tells s now checked_at ctx row = claim_found-Tells s now checked_at ctx row.outbox row

  pub store_signature-Tells :
      (g : Signature) (row : CommandRow) → Tells digest row (store_signature digest g row)
  unfolding store_signature
  store_signature-Tells g row = silent refl refl refl

  pub sign-Tells : (o : Outcome) (row : CommandRow) → Tells digest row (sign digest o row)
  unfolding sign
  sign-Tells (acknowledged g r) row = store_signature-Tells g row
  sign-Tells (unknown g r e) row = store_signature-Tells g row
  sign-Tells (failed (some g) e) row = store_signature-Tells g row
  sign-Tells (failed none e) row = silent refl refl refl

  failure-Tells :
      (s : Settings) (now attempt : ℕ) (error : String) (outbox : Outbox) (row : CommandRow)
      → Tells digest row (record_pre_ack_failure digest s now attempt error outbox row)
  unfolding record_pre_ack_failure
  failure-Tells s now attempt error outbox row =
      elim (Bool-cases (leb s.max_attempts outbox.attempt_count)) [
        | inl spent ↦ rw spent (append_event-Tells digest _ row _ refl refl refl refl)
        | inr left ↦ rw left (append_event-Tells digest _ row _ refl refl refl refl)
      ]

  record_with-Tells :
      (s : Settings) (now attempt : ℕ) (o : Outcome) (outbox : Outbox) (row : CommandRow)
      → Tells digest row (record_with digest s now attempt o outbox row)
  unfolding record_with record_acknowledged record_outcome_unknown
  record_with-Tells s now attempt (acknowledged g r) outbox row =
      append_event-Tells digest _ row _ refl refl refl refl
  record_with-Tells s now attempt (unknown g r e) outbox row =
      append_event-Tells digest _ row _ refl refl refl refl
  record_with-Tells s now attempt (failed g e) outbox row = failure-Tells s now attempt e outbox row

  record_found-Tells :
      (s : Settings) (now attempt : ℕ) (o : Outcome) (found : Option Outbox) (row : CommandRow)
      → Tells digest row (record_found digest s now attempt o found row)
  unfolding record_found
  record_found-Tells s now attempt o none row = silent refl refl refl
  record_found-Tells s now attempt o (some outbox) row =
      record_with-Tells s now attempt o outbox row

  -- The record of an outcome.
  pub record_outcome-Tells :
      (s : Settings) (now attempt : ℕ) (o : Outcome) (row : CommandRow)
      → Tells digest row (record_outcome digest s now attempt o row)
  unfolding record_outcome
  record_outcome-Tells s now attempt o row = record_found-Tells s now attempt o row.outbox row
