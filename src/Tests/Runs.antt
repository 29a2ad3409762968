-- ===== src/Tests/Runs.antt =====
-- Runs of the dispatcher and of the state machine.
use novena_hub.Prelude.{◌≡◌, ◌≤◌, refl, true, false, none, some, [], ◌∷◌, arith}
use novena_hub.Json.{Fields}
use novena_hub.RemoteControl.Types.{Risk, Status, OutboxStatus, Outbox, CommandRow}
use novena_hub.RemoteControl.Catalog.{CommandDefinition, catalog_get, status_order, is_terminal}
use novena_hub.RemoteControl.Protocol.{state_change_capability_error}
use novena_hub.RemoteControl.Protocol.Eligibility.{IsEligible, no_error-IsEligible}
use novena_hub.RemoteControl.Revalidation.{
  state_change_error, readiness_is_stale, scope_matches, definition_matches, envelope_matches,
  policy_matches, activation_matches, expiry_error, found_error, governance_error,
  device_is_foreign, write_error, defined_error, dispatch_revalidation_error,
}
use novena_hub.RemoteControl.Revalidation.Authority.{IsAuthorized}
use novena_hub.RemoteControl.Events.{next_sequence}
use novena_hub.RemoteControl.Events.Trail.{IsLogged}
use novena_hub.RemoteControl.Transition.{Request, no_updates, transition_command}
use novena_hub.RemoteControl.Transition.Laws.{
  transition_monotonic, transition_absorbs, transition_idempotent,
}
use novena_hub.RemoteControl.Dispatch.{default_settings, is_due, retry_delay}
use novena_hub.RemoteControl.Dispatch.Claim.{skipped, settled, claimed_as, take_lease, claim_row}
use novena_hub.RemoteControl.Dispatch.Record.{
  Signature, unknown, record_outcome, record_pre_ack_failure,
}
use novena_hub.RemoteControl.Dispatch.Tells.{claim_result}
use novena_hub.RemoteControl.Dispatch.Safety.{claim_row-IsAuthorized, lease_excludes}
use novena_hub.RemoteControl.Dispatch.Outcomes.{
  no_retry_after_ambiguity, AfterFailure, record_failure-AfterFailure,
}
use novena_hub.RemoteControl.Dispatch.Defects.{late_claim_expires, late_failure_reopens}
use novena_hub.RemoteControl.Lifecycle.{Reach, here, next, report, claim, answer, Reach-IsLogged}
use novena_hub.RemoteControl.Lifecycle.Attempts.{IsBounded, Reach-IsBounded}
use novena_hub.RemoteControl.Dispatch.Once.{dispatch_outbox_once}
use novena_hub.RemoteControl.Dispatch.Record.{
  Outcome, sign, transition_all, publish_claim, dispatch_outbox,
}
use novena_hub.Tests.Fixtures.{tag, ctx, waiting, queued_row, write, first_event, edge}

abbrev leased_row : CommandRow
leased_row = take_lease tag default_settings 0 waiting queued_row

claim_run : claim_row tag default_settings 0 0 ctx queued_row ≡ claimed_as 1 leased_row
unfolding claim_row dispatch_revalidation_error catalog_get defined_error state_change_error
    state_change_capability_error write_error device_is_foreign readiness_is_stale governance_error
    found_error scope_matches definition_matches envelope_matches policy_matches activation_matches
    expiry_error
claim_run = refl

claim_row-IsAuthorized_example : IsAuthorized 0 ctx.governance write ctx.team ctx.gateway ctx.device
claim_row-IsAuthorized_example =
    claim_row-IsAuthorized tag default_settings 0 0 ctx queued_row 1 leased_row claim_run

lease_excludes_example : claim_row tag default_settings 59000000 0 ctx leased_row ≡ skipped
lease_excludes_example =
    lease_excludes tag default_settings default_settings 0 0 59000000 0 ctx ctx queued_row 1
      leased_row claim_run (ground arith)

abbrev signed : Signature
signed = record { key_id = "k1"; value = "s" }

record_failure-AfterFailure_example :
    AfterFailure tag default_settings 1 waiting queued_row
      (record_pre_ack_failure tag default_settings 1 1 "refused" waiting queued_row)
record_failure-AfterFailure_example =
    record_failure-AfterFailure tag default_settings 1 1 "refused" waiting queued_row

first_delays :
    (retry_delay default_settings 1 ≡ 5000000) × (retry_delay default_settings 2 ≡ 10000000)
unfolding retry_delay
first_delays = (refl, refl)

abbrev verified_report : Request
verified_report = record {
  to_status = Status.verified;
  event_type = "field_execution_verified";
  actor = none;
  evidence = Fields.end;
  updates = no_updates;
}

abbrev verified_row : CommandRow
verified_row = record queued_row { command = record write { status = Status.verified } }

no_retry_after_ambiguity_example :
    claim_row tag default_settings 300000000 0 ctx (
      transition_all tag
        (verified_report ∷ [])
        (record_outcome tag default_settings 1 1 (unknown signed 9 "timeout") queued_row))
    ≡ skipped
no_retry_after_ambiguity_example =
    no_retry_after_ambiguity tag default_settings default_settings 1 1 300000000 0 ctx
      (unknown signed 9 "timeout") (verified_report ∷ []) queued_row waiting tt refl

transition_monotonic_example :
    status_order Status.queued
    ≤ status_order (transition_command tag verified_report queued_row).0.command.status
transition_monotonic_example = transition_monotonic tag verified_report queued_row

transition_absorbs_example :
    ((transition_command tag verified_report verified_row).1 ≡ false)
    × ((transition_command tag verified_report verified_row).0.command.status ≡ Status.verified)
    × ((transition_command tag verified_report verified_row).0.events ≡ first_event ∷ [])
unfolding is_terminal
transition_absorbs_example = transition_absorbs tag verified_report verified_row refl

transition_idempotent_example :
    transition_command tag verified_report (transition_command tag verified_report queued_row).0
    ≡ ((transition_command tag verified_report queued_row).0, false)
transition_idempotent_example = transition_idempotent tag verified_report queued_row

claim_result_run :
    leased_row ≡ claim_result (claim_row tag default_settings 0 0 ctx queued_row) queued_row
claim_result_run = rw claim_run refl

-- A claim, an ambiguous answer, and the report of the Gateway that verifies the command.
abbrev history :
    Reach tag default_settings queued_row
      (transition_command tag verified_report
        (record_outcome tag default_settings 1 1 (unknown signed 9 "timeout") leased_row)).0
history =
    next
      (next (next here (claim 0 0 ctx claim_result_run))
        (answer 1 1 (unknown signed 9 "timeout") refl))
      (report verified_report refl)

queued_row-IsLogged : IsLogged tag queued_row
unfolding next_sequence
queued_row-IsLogged = record {
  chained = (refl, refl, tt);
  trail = (Status.requested, refl, refl, refl);
}

Reach-IsLogged_example :
    IsLogged tag
      (transition_command tag verified_report
        (record_outcome tag default_settings 1 1 (unknown signed 9 "timeout") leased_row)).0
Reach-IsLogged_example = Reach-IsLogged tag default_settings history queued_row-IsLogged

Reach-IsBounded_example :
    IsBounded default_settings
      (transition_command tag verified_report
        (record_outcome tag default_settings 1 1 (unknown signed 9 "timeout") leased_row)).0
Reach-IsBounded_example = Reach-IsBounded tag default_settings history (refl, ground arith)

no_error-IsEligible_example : IsEligible edge
unfolding state_change_capability_error
no_error-IsEligible_example = no_error-IsEligible edge refl

-- The worker that published the write died before it recorded that; the Gateway has verified it.
abbrev claimed_outbox : Outbox
claimed_outbox = record waiting {
  status = OutboxStatus.claimed;
  claimed_at = some 0;
  lease_expires_at = some 60000000;
  attempt_count = 1;
}

abbrev crashed_row : CommandRow
crashed_row = record verified_row { outbox = some claimed_outbox }

abbrev write_definition : CommandDefinition
write_definition = record {
  operation = "write_device";
  risk = Risk.high;
  state_changing = true;
  permission = "request_high_risk_commands";
  device_required = true;
}

late_claim_expires_example :
    (row' : CommandRow) × (claim_row tag default_settings 61000000 61000000 ctx crashed_row
      ≡ settled row')
    × (row'.command.status ≡ Status.expired)
unfolding is_due catalog_get
late_claim_expires_example =
    late_claim_expires tag default_settings 61000000 61000000 ctx crashed_row claimed_outbox
      write_definition refl refl (ground arith) refl (ground arith)

abbrev done : Outbox
done = record waiting { status = OutboxStatus.published; attempt_count = 2 }

late_failure_reopens_example :
    (o : Outbox) × ((record_pre_ack_failure tag default_settings 0 1 "late" done queued_row).outbox
      ≡ some o)
    × (is_due o 10000000 ≡ true)
unfolding retry_delay
late_failure_reopens_example =
    late_failure_reopens tag default_settings 0 1 10000000 "late" done queued_row refl
      (ground arith) (ground arith)

abbrev ambiguous : Outcome
ambiguous = unknown signed 9 "timeout"

abbrev dispatched_row : CommandRow
dispatched_row =
    record_outcome tag default_settings 1 1 ambiguous
      (transition_all tag (verified_report ∷ []) (sign tag ambiguous leased_row))

dispatch_run :
    dispatch_outbox tag default_settings 0 0 1 ctx ambiguous (verified_report ∷ []) queued_row
    ≡ some dispatched_row
unfolding dispatch_outbox publish_claim
dispatch_run = rw claim_run refl

dispatch_outbox_once_example :
    dispatch_outbox tag default_settings 90000000 90000000 90000001 ctx ambiguous []
      (transition_all tag (verified_report ∷ []) dispatched_row)
    ≡ none
dispatch_outbox_once_example =
    dispatch_outbox_once tag default_settings default_settings 0 0 1 90000000 90000000 90000001 ctx
      ctx ambiguous ambiguous (verified_report ∷ []) (verified_report ∷ []) [] queued_row
      dispatched_row tt dispatch_run
