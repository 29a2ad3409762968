-- ===== src/RemoteControl/Response/Reconcile.antt =====
-- apps/telemetry/management/commands/mqtt_consumer.py: the reconciliation with the journal that a
-- Gateway reports, as it acts on one command.
pub mod Again
use novena_hub.Prelude.{
  ℕ, ◌≡◌, refl, sym, ◌∙◌, Bool, true, false, not, ◌&&◌, ◌||◌, String, Option, none, some, List, [],
  ◌∷◌, any, str_eq, ◌==◌, refers, ◌⊎◌, inl, inr, Bool-cases, if◌then◌else◌, arith,
}
use novena_hub.Json.{Fields}
use novena_hub.RemoteControl.Types.{Status, CommandEvent, EventPayload, CommandRow}
use novena_hub.RemoteControl.Catalog.{is_terminal, status_order}
use novena_hub.RemoteControl.Events.{append_event, new_event}
use novena_hub.RemoteControl.Transition.{
  Request, no_updates, apply_updates, refuses, transition_command,
}
use novena_hub.RemoteControl.Transition.Laws.{Ends, same, refused, advanced, transition-Ends}

-- An entry of the journal: the three keys that the code reads, and the whole document.
pub record EdgeEvent : Type 0 where
  pub command_id : Option ℕ
  pub status : Option String
  pub stage : Option String
  pub document : Fields

abbrev is_text : Option String → String → Bool
is_text none s = false
is_text (some t) s = str_eq t s

-- `target_status`
unfoldable pub reconciled_status : EdgeEvent → Status
reconciled_status e =
    if is_text e.status "success" && is_text e.stage "verified"
    then Status.reconciled_verified
    else if is_text e.stage "rejected"
    then Status.reconciled_not_applied
    else Status.reconciled_unresolved

unfoldable pub reconciliation : EdgeEvent → Request
unfolding reconciled_status
reconciliation e = record {
  to_status = reconciled_status e;
  event_type = "gateway_journal_reconciled";
  actor = none;
  evidence = e.document;
  updates = no_updates;
}

-- The query of the command: by its key and its Gateway.
abbrev pub concerns : ℕ → EdgeEvent → CommandRow → Bool
concerns gateway e row = refers e.command_id row.command.pk && (row.command.gateway_id == gateway)

-- The database compares the evidence of an event with a document.
module _ (same_document : Fields → Fields → Bool) (digest : EventPayload → ℕ) (gateway : ℕ) where
  abbrev pub tells : EdgeEvent → CommandEvent → Bool
  tells e event =
      str_eq event.event_type "gateway_journal_reconciled"
      && same_document event.evidence e.document

  -- `command.events.filter(...).exists()`
  unfoldable pub is_told : EdgeEvent → CommandRow → Bool
  is_told e row = any (tells e) row.events

  -- The body of the loop.
  unfoldable pub reconcile_event : EdgeEvent → CommandRow → CommandRow
  unfolding is_told reconciliation transition_command
  reconcile_event e row =
      if not (concerns gateway e row) || is_told e row
      then row
      else (transition_command digest (reconciliation e) row).0

  -- `for edge_event in reconciliation`
  unfoldable pub reconcile : List EdgeEvent → CommandRow → CommandRow
  unfolding reconcile_event
  reconcile [] row = row
  reconcile (e ∷ es) row = reconcile es (reconcile_event e row)
