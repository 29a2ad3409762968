-- ===== src/RemoteControl/Events/Trail.antt =====
-- apps/devices/remote_control.py: the log of a command next to its status.
use novena_hub.Prelude.{ℕ, ◌≡◌, ◌∙◌, sym, ap, some, List, [], ◌∷◌}
use novena_hub.RemoteControl.Types.{Status, CommandEvent, EventPayload, CommandRow}
use novena_hub.RemoteControl.Events.{Entry, new_event, append_event}
use novena_hub.RemoteControl.Events.Chain.{IsChained, new_event-IsChained}

-- The events lead from `requested` to the status, each from where the one before it led.
abbrev pub IsTrail : List CommandEvent → Status → Type 0
IsTrail [] status = status ≡ Status.requested
IsTrail (e ∷ before) status =
    (previous : Status) × (e.to_status ≡ some status)
    × (e.from_status ≡ some previous)
    × IsTrail before previous

module _ (digest : EventPayload → ℕ) where
  -- The log of a row is a hash chain that ends in the row's status.
  pub record IsLogged (row : CommandRow) : Type 0 where
    pub chained : IsChained digest row.command.pk row.events
    pub trail : IsTrail row.events row.command.status

  -- The change from one row to another is told by the log.
  pub data Tells (row row' : CommandRow) : Type 0 where
    silent :
        row'.command.pk ≡ row.command.pk
        → row'.events ≡ row.events
        → row'.command.status ≡ row.command.status
        → Tells row row'
    told :
        (entry : Entry)
        → row'.command.pk ≡ row.command.pk
        → row'.events ≡ new_event digest row.command.pk row.events entry ∷ row.events
        → entry.from_status ≡ some row.command.status
        → entry.to_status ≡ some row'.command.status
        → Tells row row'

  pub Tells-IsLogged : {row row' : CommandRow} → Tells row row' → IsLogged row → IsLogged row'
  unfolding new_event
  Tells-IsLogged {row} {row'} (silent pk events status) h = record {
    chained = rw (pk, events) h.chained;
    trail = rw (events, status) h.trail;
  }
  Tells-IsLogged {row} {row'} (told entry pk events from to) h = record {
    chained =
        rw (pk, events) (new_event-IsChained digest row.command.pk entry row.events h.chained);
    trail = rw events (row.command.status, to, from, h.trail);
  }

  pub append_event-Tells :
      (entry : Entry) (row row' : CommandRow)
      → row'.command.pk ≡ row.command.pk
      → row'.events ≡ row.events
      → entry.from_status ≡ some row.command.status
      → entry.to_status ≡ some row'.command.status
      → Tells row (append_event digest entry row')
  unfolding append_event
  append_event-Tells entry row row' pk events from to = told entry pk (rw (pk, events)) from to

  -- A change of other columns after a change that the log tells.
  pub Tells-later :
      {row row' row'' : CommandRow}
      → Tells row row'
      → row''.command.pk ≡ row'.command.pk
      → row''.events ≡ row'.events
      → row''.command.status ≡ row'.command.status
      → Tells row row''
  Tells-later (silent p e s) pk events status = silent (pk ∙ p) (events ∙ e) (status ∙ s)
  Tells-later (told entry p e f t) pk events status =
      told entry (pk ∙ p) (events ∙ e) f (t ∙ ap some (sym status))
