-- ===== src/RemoteControl/Events.antt =====
-- apps/devices/remote_control.py: the hash-chained log of a command. `digest` is SHA-256 over the
-- sorted JSON text of a payload, which the standard library computes.
pub mod Chain
pub mod Tampered
pub mod Trail
use novena_hub.Prelude.{ℕ, ◌+◌, String, Option, none, some, List, [], ◌∷◌, if◌then◌else◌}
use novena_hub.Json.{Fields}
use novena_hub.Teams.Types.{User}
use novena_hub.RemoteControl.Types.{
  Status, ActorSnapshot, system_actor, user_actor, CommandEvent, EventPayload, CommandRow,
}

unfoldable pub actor_snapshot : Option User → ActorSnapshot
actor_snapshot none = system_actor
actor_snapshot (some u) =
    if u.is_authenticated then user_actor u.pk u.email u.display_name else system_actor

-- `actor if getattr(actor, "is_authenticated", False) else None`
unfoldable pub actor_of : Option User → Option ℕ
actor_of none = none
actor_of (some u) = if u.is_authenticated then some u.pk else none

-- What a caller hands to `_append_command_event_locked`.
pub record Entry : Type 0 where
  pub event_type : String
  pub actor : Option User
  pub from_status : Option Status
  pub to_status : Option Status
  pub evidence : Fields

-- `previous.sequence_number + 1 if previous else 1`
unfoldable pub next_sequence : List CommandEvent → ℕ
next_sequence [] = 1
next_sequence (e ∷ _) = e.sequence_number + 1

-- `previous.checksum if previous else ""`
unfoldable pub last_checksum : List CommandEvent → Option ℕ
last_checksum [] = none
last_checksum (e ∷ _) = some e.checksum

unfoldable pub payload_of : ℕ → List CommandEvent → Entry → EventPayload
unfolding next_sequence last_checksum actor_snapshot
payload_of pk events entry = record {
  command = pk;
  sequence_number = next_sequence events;
  event_type = entry.event_type;
  from_status = entry.from_status;
  to_status = entry.to_status;
  actor = actor_snapshot entry.actor;
  evidence = entry.evidence;
  previous = last_checksum events;
}

module _ (digest : EventPayload → ℕ) where
  -- `CommandEvent.objects.create(...)`
  unfoldable pub new_event : ℕ → List CommandEvent → Entry → CommandEvent
  unfolding payload_of actor_of
  new_event pk events entry =
      let payload = payload_of pk events entry in
      record {
        sequence_number = payload.sequence_number;
        event_type = entry.event_type;
        from_status = entry.from_status;
        to_status = entry.to_status;
        actor = actor_of entry.actor;
        actor_snapshot = payload.actor;
        evidence = entry.evidence;
        checksum = digest payload;
      }

  -- `_append_command_event_locked`
  unfoldable pub append_event : Entry → CommandRow → CommandRow
  unfolding new_event
  append_event entry row = record row {
    events = new_event row.command.pk row.events entry ∷ row.events;
  }
