-- ===== src/RemoteControl/Dispatch/Meanwhile.antt =====
-- apps/devices/remote_control.py: the outbox of a command while a Gateway reports on it.
use novena_hub.Prelude.{ℕ, ◌≡◌, refl, ◌∙◌, false, List, [], ◌∷◌, some}
use novena_hub.RemoteControl.Types.{EventPayload, Outbox, CommandRow}
use novena_hub.RemoteControl.Events.{append_event}
use novena_hub.RemoteControl.Transition.{Request, transition_command}
use novena_hub.RemoteControl.Transition.Laws.{Ends, same, refused, advanced, transition-Ends}
use novena_hub.RemoteControl.Dispatch.{Settings, is_due}
use novena_hub.RemoteControl.Dispatch.Claim.{skipped, Context, claim_row}
use novena_hub.RemoteControl.Dispatch.Record.{transition_all}
use novena_hub.RemoteControl.Dispatch.Safety.{claim_row_skips}

-- The outbox row stands, and is never due again.
abbrev pub IsFinished : CommandRow → Type 0
IsFinished row = (o : Outbox) × (row.outbox ≡ some o) × ((t : ℕ) → is_due o t ≡ false)

module _ (digest : EventPayload → ℕ) where
  report-outbox :
      (r : Request) (row : CommandRow)
      → Ends digest r row
      → (transition_command digest r row).0.outbox ≡ row.outbox
  unfolding append_event
  report-outbox r row (same e h) = rw h refl
  report-outbox r row (refused ne t h) = rw h refl
  report-outbox r row (advanced ne t o h) = rw h refl

  pub transition_all-outbox :
      (rs : List Request) (row : CommandRow) → (transition_all digest rs row).outbox ≡ row.outbox
  unfolding transition_all
  transition_all-outbox [] row = refl
  transition_all-outbox (r ∷ rest) row =
      transition_all-outbox rest (transition_command digest r row).0
      ∙ report-outbox r row (transition-Ends digest r row)

  -- A row whose outbox is finished is not claimed, whatever is reported before.
  pub IsFinished-skips :
      (s : Settings) (now checked_at : ℕ) (ctx : Context) (rs : List Request) (row : CommandRow)
      → IsFinished row
      → claim_row digest s now checked_at ctx (transition_all digest rs row) ≡ skipped
  IsFinished-skips s now checked_at ctx rs row (o, found, never) =
      claim_row_skips digest s now checked_at ctx (transition_all digest rs row) o
        (transition_all-outbox rs row ∙ found) (never now)
