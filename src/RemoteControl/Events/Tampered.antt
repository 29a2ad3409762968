-- ===== src/RemoteControl/Events/Tampered.antt =====
-- apps/devices/remote_control.py: what the last checksum of a log says of the log.
use novena_hub.Prelude.{◌≡◌, ◌≢◌, ℕ, refl, sym, ◌∙◌, ap, none, List, [], ◌∷◌, map}
use novena_hub.RemoteControl.Types.{CommandEvent, EventPayload, CommandRow}
use novena_hub.RemoteControl.Events.{Entry, last_checksum, append_event}
use novena_hub.RemoteControl.Events.Chain.{
  IsChained, payload_at, payloads, new_event-IsChained, IsCollisionFree, chain_determines_log,
}

-- What the log shows of an event, without the key of its user, of whom it keeps a snapshot.
abbrev pub shown : CommandEvent → CommandEvent
shown e = record e { actor = none }

module _ (digest : EventPayload → ℕ) where
  -- The row after the entries, the last of them at the head of the list.
  abbrev pub append_all : List Entry → CommandRow → CommandRow
  append_all [] row = row
  append_all (entry ∷ before) row = append_event digest entry (append_all before row)

  append_all-IsChained :
      (entries : List Entry) (row : CommandRow)
      → row.events ≡ []
      → ((append_all entries row).command.pk ≡ row.command.pk)
        × IsChained digest row.command.pk (append_all entries row).events
  unfolding append_event
  append_all-IsChained [] row h = (refl, rw h tt)
  append_all-IsChained (entry ∷ before) row h =
      let (pk, chained) = append_all-IsChained before row h in
      (pk, rw pk (new_event-IsChained digest row.command.pk entry _ chained))

  -- The event that a payload belongs to, without the key of its user.
  abbrev event_of : EventPayload → CommandEvent
  event_of p = record {
    sequence_number = p.sequence_number;
    event_type = p.event_type;
    from_status = p.from_status;
    to_status = p.to_status;
    actor = none;
    actor_snapshot = p.actor;
    evidence = p.evidence;
    checksum = digest p;
  }

  shown-payloads :
      (pk : ℕ) (events : List CommandEvent)
      → IsChained digest pk events
      → map shown events ≡ map event_of (payloads pk events)
  shown-payloads pk [] h = refl
  shown-payloads pk (e ∷ before) (number, sum, h) =
      let rest = shown-payloads pk before h in
      let first : shown e ≡ event_of (payload_at pk e before) =
        ap (λ (n : ℕ). record e { actor = none; checksum = n }) sum in
      cc

  -- Two logs of one command that were written from nothing by `append_event`, and of which no two
  -- different payloads have the same digest, differ in their last checksums if they differ in
  -- anything that they show: in their length, or in the number, type, statuses, actor, evidence or
  -- checksum of any event.
  pub append_event_tampered :
      (row row' : CommandRow) (es fs : List Entry)
      → row.events ≡ []
      → row'.events ≡ []
      → row'.command.pk ≡ row.command.pk
      → IsCollisionFree digest
          (payloads row.command.pk (append_all es row).events)
          (payloads row.command.pk (append_all fs row').events)
      → map shown (append_all es row).events ≢ map shown (append_all fs row').events
      → last_checksum (append_all es row).events ≢ last_checksum (append_all fs row').events
  append_event_tampered row row' es fs empty empty' same free differ sums =
      let pk = row.command.pk in
      let left : IsChained digest pk (append_all es row).events =
        (append_all-IsChained es row empty).1 in
      let right : IsChained digest pk (append_all fs row').events =
        rw (sym same) ((append_all-IsChained fs row' empty').1) in
      differ (
        shown-payloads pk (append_all es row).events left
        ∙ ap (map event_of) (
            chain_determines_log digest pk (append_all es row).events (append_all fs row').events
              left right free sums)
        ∙ sym (shown-payloads pk (append_all fs row').events right))
