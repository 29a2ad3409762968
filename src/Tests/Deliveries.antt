-- ===== src/Tests/Deliveries.antt =====
-- Runs of a delivery and of the logs of commands.
use novena_hub.Prelude.{ℕ, ◌+◌, ◌≡◌, ◌≢◌, refl, none, some, [], ◌∷◌, arith}
use novena_hub.Json.{Fields}
use novena_hub.RemoteControl.Types.{Status, EventPayload, CommandRow}
use novena_hub.RemoteControl.Catalog.{status_order, catalog_get}
use novena_hub.RemoteControl.Revalidation.{
  dispatch_revalidation_error, defined_error, state_change_error, write_error, device_is_foreign,
  readiness_is_stale, governance_error, found_error, scope_matches, definition_matches,
  envelope_matches, policy_matches, activation_matches, expiry_error,
}
use novena_hub.RemoteControl.Protocol.{state_change_capability_error}
use novena_hub.RemoteControl.Events.{new_event, next_sequence, Entry, append_event, last_checksum}
use novena_hub.RemoteControl.Events.Tampered.{append_all, append_event_tampered}
use novena_hub.RemoteControl.Transition.{Request, no_updates}
use novena_hub.RemoteControl.Dispatch.{default_settings, is_due}
use novena_hub.RemoteControl.Dispatch.Record.{Signature, acknowledged, dispatch_outbox}
use novena_hub.RemoteControl.Dispatch.Delivered.{IsDelivered, dispatch_outbox-IsDelivered}
use novena_hub.Tests.Fixtures.{tag, ctx, waiting, queued_row}

abbrev signed : Signature
signed = record { key_id = "k1"; value = "s" }

-- The Gateway answers before the broker's acknowledgement is recorded.
abbrev received : Request
received = record {
  to_status = Status.gateway_received;
  event_type = "gateway_received";
  actor = none;
  evidence = Fields.end;
  updates = no_updates;
}

dispatch_outbox-IsDelivered_example :
    (row : CommandRow) × (dispatch_outbox tag default_settings 0 0 7 ctx
        (acknowledged signed 9)
        (received ∷ [])
        queued_row
      ≡ some row)
    × IsDelivered tag 0 7 signed waiting row
unfolding is_due dispatch_revalidation_error catalog_get state_change_capability_error defined_error
    state_change_error write_error device_is_foreign readiness_is_stale governance_error found_error
    scope_matches definition_matches envelope_matches policy_matches activation_matches expiry_error
dispatch_outbox-IsDelivered_example =
    dispatch_outbox-IsDelivered tag default_settings 0 0 7 9 ctx signed (received ∷ []) queued_row
      waiting refl refl (ground arith) refl

-- A digest that tells the statuses and the numbers apart.
abbrev seal : EventPayload → ℕ
seal p = p.sequence_number + elim p.to_status [ none ↦ 0 | some s ↦ status_order s + 1000 ]

abbrev entry_to : Status → Entry
entry_to status = record {
  event_type = "status";
  actor = none;
  from_status = some Status.requested;
  to_status = some status;
  evidence = Fields.end;
}

abbrev empty_row : CommandRow
empty_row = record queued_row { events = [] }

-- Two logs with the same first event.
append_event_tampered_example :
    last_checksum
      (append_all seal (entry_to Status.rejected ∷ entry_to Status.queued ∷ []) empty_row).events
    ≢ last_checksum
        (append_all seal (entry_to Status.executing ∷ entry_to Status.queued ∷ []) empty_row).events
unfolding append_event new_event status_order next_sequence last_checksum
append_event_tampered_example =
    append_event_tampered seal empty_row empty_row
      (entry_to Status.rejected ∷ entry_to Status.queued ∷ [])
      (entry_to Status.executing ∷ entry_to Status.queued ∷ []) refl refl refl
      (
        ((λ e. absurd (omega (arith, e))), ((λ e. absurd (omega (arith, e))), tt)),
        (((λ e. absurd (omega (arith, e))), ((λ e. refl), tt)), tt),
      )
      (λ e. cc)
