-- ===== src/RemoteControl/Lifecycle/Attempts.antt =====
-- apps/devices/remote_control.py: the attempts that the transactions of `dispatch_outbox` count.
use novena_hub.Prelude.{
  ℕ, ◌≤◌, ◌<◌, ◌≡◌, refl, Bool, Option, none, some, List, [], ◌∷◌, arith, length, leb, ltb,
  Bool-cases, inl, inr, update_where, String,
}
use novena_hub.RemoteControl.Types.{Status, EventPayload, Outbox, Attempt, CommandRow, Denial}
use novena_hub.RemoteControl.Catalog.{status_order}
use novena_hub.RemoteControl.Events.{append_event}
use novena_hub.RemoteControl.Transition.{Request, transition_command}
use novena_hub.RemoteControl.Transition.Laws.{Ends, same, refused, advanced, transition-Ends}
use novena_hub.RemoteControl.Dispatch.{Settings, is_due}
use novena_hub.RemoteControl.Dispatch.Claim.{
  Context, cancel_claim, exhaust_leases, enter_dispatch, take_lease, revalidate, claim_outbox,
  claim_found, claim_row,
}
use novena_hub.RemoteControl.Dispatch.Record.{
  Outcome, acknowledged, unknown, failed, store_signature, sign, record_with, record_found,
  record_outcome, record_acknowledged, record_outcome_unknown, record_pre_ack_failure,
}
use novena_hub.RemoteControl.Dispatch.Tells.{claim_result}
use novena_hub.RemoteControl.Lifecycle.{
  Step, report, claim, sign_envelope, answer, Reach, here, next,
}

-- The outbox counts the attempts that are on record, and their number is within the limit.
abbrev pub CountsAttempts : ℕ → Option Outbox → List Attempt → Type 0
CountsAttempts limit none attempts = attempts ≡ []
CountsAttempts limit (some o) attempts =
    (length attempts ≡ o.attempt_count) × (o.attempt_count ≤ limit)

abbrev pub IsBounded : Settings → CommandRow → Type 0
IsBounded s row = CountsAttempts s.max_attempts row.outbox row.attempts

length-update_where {ℓ} :
    {A : Type ℓ} (p : A → Bool) (f : A → A) (xs : List A) → length (update_where p f xs) ≡ length xs
length-update_where p f [] = refl
length-update_where p f (x ∷ xs) = omega (arith, length-update_where p f xs)

module _ (digest : EventPayload → ℕ) (s : Settings) where
  report_of :
      (r : Request) (row : CommandRow)
      → Ends digest r row
      → IsBounded s row
      → IsBounded s (transition_command digest r row).0
  unfolding append_event
  report_of r row (same e h) b = rw h b
  report_of r row (refused ne t h) b = rw h b
  report_of r row (advanced ne t o h) b = rw h b

  take_lease-IsBounded :
      (now : ℕ) (o : Outbox) (row : CommandRow)
      → o.attempt_count < s.max_attempts
      → CountsAttempts s.max_attempts (some o) row.attempts
      → IsBounded s (take_lease digest s now o row)
  unfolding take_lease enter_dispatch append_event
  take_lease-IsBounded now o row left b =
      elim (Bool-cases (ltb (status_order row.command.status) (status_order Status.dispatching))) [
        | inl early ↦ rw early (omega (arith, b.0))
        | inr late ↦ rw late (omega (arith, b.0))
      ]

  revalidate-IsBounded :
      (now : ℕ) (d : Option Denial) (o : Outbox) (row : CommandRow)
      → o.attempt_count < s.max_attempts
      → CountsAttempts s.max_attempts (some o) row.attempts
      → IsBounded s (claim_result (revalidate digest s now d o row) row)
  unfolding revalidate cancel_claim append_event
  revalidate-IsBounded now none o row left b = take_lease-IsBounded now o row left b
  revalidate-IsBounded now (some d) o row left b = b

  claim_outbox-IsBounded :
      (now checked_at : ℕ) (ctx : Context) (o : Outbox) (row : CommandRow)
      → CountsAttempts s.max_attempts (some o) row.attempts
      → IsBounded s row
      → IsBounded s (claim_result (claim_outbox digest s now checked_at ctx o row) row)
  unfolding claim_outbox exhaust_leases append_event
  claim_outbox-IsBounded now checked_at ctx o row b old = elim (Bool-cases (is_due o now)) [
    | inr early ↦ rw early old
    | inl due ↦ elim (Bool-cases (leb s.max_attempts o.attempt_count)) [
      | inl spent ↦ rw (due, spent) b
      | inr left ↦ rw (due, left) (revalidate-IsBounded now _ o row (ground arith) b)
    ]
  ]

  claim_found-IsBounded :
      (now checked_at : ℕ) (ctx : Context) (o : Option Outbox) (row : CommandRow)
      → CountsAttempts s.max_attempts o row.attempts
      → IsBounded s row
      → IsBounded s (claim_result (claim_found digest s now checked_at ctx o row) row)
  unfolding claim_found
  claim_found-IsBounded now checked_at ctx none row b old = old
  claim_found-IsBounded now checked_at ctx (some o) row b old =
      claim_outbox-IsBounded now checked_at ctx o row b old

  sign-IsBounded :
      (o : Outcome) (row : CommandRow) → IsBounded s row → IsBounded s (sign digest o row)
  unfolding sign store_signature
  sign-IsBounded (acknowledged g r) row b = b
  sign-IsBounded (unknown g r e) row b = b
  sign-IsBounded (failed (some g) e) row b = b
  sign-IsBounded (failed none e) row b = b

  failure-IsBounded :
      (now attempt : ℕ) (e : String) (x : Outbox) (row : CommandRow)
      → CountsAttempts s.max_attempts (some x) row.attempts
      → IsBounded s (record_pre_ack_failure digest s now attempt e x row)
  unfolding record_pre_ack_failure append_event
  failure-IsBounded now attempt e x row b = elim (Bool-cases (leb s.max_attempts x.attempt_count)) [
    | inl spent ↦ rw spent (rw length-update_where b)
    | inr left ↦ rw left (rw length-update_where b)
  ]

  record_found-IsBounded :
      (now attempt : ℕ) (o : Outcome) (found : Option Outbox) (row : CommandRow)
      → CountsAttempts s.max_attempts found row.attempts
      → IsBounded s row
      → IsBounded s (record_found digest s now attempt o found row)
  unfolding record_found record_with record_acknowledged record_outcome_unknown append_event
  record_found-IsBounded now attempt o none row b old = old
  record_found-IsBounded now attempt (acknowledged g r) (some x) row b old =
      rw length-update_where b
  record_found-IsBounded now attempt (unknown g r e) (some x) row b old = rw length-update_where b
  record_found-IsBounded now attempt (failed g e) (some x) row b old =
      failure-IsBounded now attempt e x row b

  Step-IsBounded :
      {row row' : CommandRow} → Step digest s row row' → IsBounded s row → IsBounded s row'
  unfolding claim_row record_outcome
  Step-IsBounded {row} (report r e) b = rw e (report_of r row (transition-Ends digest r row) b)
  Step-IsBounded {row} (claim now checked_at ctx e) b =
      rw e (claim_found-IsBounded now checked_at ctx row.outbox row b b)
  Step-IsBounded {row} (sign_envelope o e) b = rw e (sign-IsBounded o row b)
  Step-IsBounded {row} (answer now attempt o e) b =
      rw e (record_found-IsBounded now attempt o row.outbox row b b)

  -- Through any sequence of reports, claims, signatures and answers, the outbox counts the attempts on
  -- record, and their number stays within the limit of the settings.
  pub Reach-IsBounded :
      {row row' : CommandRow} → Reach digest s row row' → IsBounded s row → IsBounded s row'
  Reach-IsBounded here b = b
  Reach-IsBounded (next r st) b = Step-IsBounded st (Reach-IsBounded r b)
