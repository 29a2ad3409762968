-- ===== src/RemoteControl/Lifecycle.antt =====
-- The life of a command as a sequence of transactions: the dispatcher's and the Gateway's reports,
-- in any order, by any number of workers.
pub mod Attempts
use novena_hub.Prelude.{
  ℕ, suc, ◌+◌, ◌≤◌, ◌<◌, ◌≡◌, refl, Bool, true, false, Option, none, some, List, [], ◌∷◌, arith,
  length, leb, Bool-cases, inl, inr, update_where, String,
}
use novena_hub.RemoteControl.Types.{Status, EventPayload, Outbox, Attempt, CommandRow, Denial}
use novena_hub.RemoteControl.Events.{append_event}
use novena_hub.RemoteControl.Events.Trail.{IsLogged, Tells-IsLogged}
use novena_hub.RemoteControl.Transition.{Request, apply_updates, transition_command}
use novena_hub.RemoteControl.Transition.Laws.{transition-Tells}
use novena_hub.RemoteControl.Dispatch.{Settings}
use novena_hub.RemoteControl.Dispatch.Claim.{Claim, Context, claim_row}
use novena_hub.RemoteControl.Dispatch.Record.{Outcome, sign, record_outcome}
use novena_hub.RemoteControl.Dispatch.Tells.{
  claim_result, claim_row-Tells, sign-Tells, record_outcome-Tells,
}

module _ (digest : EventPayload → ℕ) (s : Settings) where
  -- One transaction on the row of a command.
  pub data Step (row row' : CommandRow) : Type 0 where
    report : (r : Request) → row' ≡ (transition_command digest r row).0 → Step row row'
    claim :
        (now checked_at : ℕ) (ctx : Context)
        → row' ≡ claim_result (claim_row digest s now checked_at ctx row) row
        → Step row row'
    sign_envelope : (o : Outcome) → row' ≡ sign digest o row → Step row row'
    answer :
        (now attempt : ℕ) (o : Outcome)
        → row' ≡ record_outcome digest s now attempt o row
        → Step row row'

  pub data Reach (row : CommandRow) : CommandRow → Type 0 where
    here : Reach row row
    next : {row' row'' : CommandRow} → Reach row row' → Step row' row'' → Reach row row''

  pub Step-IsLogged :
      {row row' : CommandRow} → Step row row' → IsLogged digest row → IsLogged digest row'
  Step-IsLogged {row} (report r e) h =
      rw e (Tells-IsLogged digest (transition-Tells digest r row) h)
  Step-IsLogged {row} (claim now checked_at ctx e) h =
      rw e (Tells-IsLogged digest (claim_row-Tells digest s now checked_at ctx row) h)
  Step-IsLogged {row} (sign_envelope o e) h =
      rw e (Tells-IsLogged digest (sign-Tells digest o row) h)
  Step-IsLogged {row} (answer now attempt o e) h =
      rw e (Tells-IsLogged digest (record_outcome-Tells digest s now attempt o row) h)

  -- Through any sequence of reports, claims, signatures and answers, the log of a command stays a hash
  -- chain whose events lead from `requested` to the status of the command.
  pub Reach-IsLogged :
      {row row' : CommandRow} → Reach row row' → IsLogged digest row → IsLogged digest row'
  Reach-IsLogged here h = h
  Reach-IsLogged (next r st) h = Step-IsLogged st (Reach-IsLogged r h)
