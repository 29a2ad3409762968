-- ===== src/RemoteControl/Dispatch/Once.antt =====
-- apps/devices/remote_control.py: proofs on repeated calls of `dispatch_outbox`.
use novena_hub.Prelude.{
  ℕ, ◌≡◌, refl, ◌∙◌, subst, Option, none, some, List, leb, Bool-cases, inl, inr,
}
use novena_hub.RemoteControl.Types.{EventPayload, Outbox, CommandRow, Denial}
use novena_hub.RemoteControl.Events.{append_event}
use novena_hub.RemoteControl.Transition.{Request}
use novena_hub.RemoteControl.Dispatch.{Settings, is_due}
use novena_hub.RemoteControl.Dispatch.Claim.{
  Claim, skipped, settled, claimed_as, Context, cancel_claim, exhaust_leases, take_lease,
  revalidate, claim_outbox, claim_found, claim_row,
}
use novena_hub.RemoteControl.Dispatch.Record.{
  Outcome, acknowledged, unknown, failed, store_signature, sign, record_outcome, transition_all,
  publish_claim, dispatch_outbox,
}
use novena_hub.RemoteControl.Dispatch.Safety.{refusal, claim_row-IsClaimed}
use novena_hub.RemoteControl.Dispatch.Outcomes.{MayBeDelivered, delivered-IsFinished}
use novena_hub.RemoteControl.Dispatch.Meanwhile.{
  IsFinished, transition_all-outbox, IsFinished-skips,
}

module _ (digest : EventPayload → ℕ) where
  sign-outbox : (o : Outcome) (row : CommandRow) → (sign digest o row).outbox ≡ row.outbox
  unfolding sign store_signature
  sign-outbox (acknowledged g r) row = refl
  sign-outbox (unknown g r e) row = refl
  sign-outbox (failed (some g) e) row = refl
  sign-outbox (failed none e) row = refl

  take_lease-outbox :
      (s : Settings) (now : ℕ) (outbox : Outbox) (row : CommandRow)
      → (o : Outbox) × ((take_lease digest s now outbox row).outbox ≡ some o)
  unfolding take_lease
  take_lease-outbox s now outbox row = (_, refl)

  cancel_claim-IsFinished :
      (d : Denial) (outbox : Outbox) (row : CommandRow)
      → IsFinished (cancel_claim digest d outbox row)
  unfolding cancel_claim append_event is_due
  cancel_claim-IsFinished d outbox row = (_, refl, λ t. refl)

  exhaust_leases-IsFinished :
      (now : ℕ) (outbox : Outbox) (row : CommandRow)
      → IsFinished (exhaust_leases digest now outbox row)
  unfolding exhaust_leases append_event is_due
  exhaust_leases-IsFinished now outbox row = (_, refl, λ t. refl)

  revalidate-IsFinished :
      (s : Settings) (now : ℕ) (d : Option Denial) (outbox : Outbox) (row row' : CommandRow)
      → revalidate digest s now d outbox row ≡ settled row'
      → IsFinished row'
  unfolding revalidate
  revalidate-IsFinished s now none outbox row row' h = cc
  revalidate-IsFinished s now (some d) outbox row row' h =
      let same_row : cancel_claim digest d outbox row ≡ row' = cc in
      subst IsFinished same_row (cancel_claim-IsFinished d outbox row)

  claim_outbox-IsFinished :
      (s : Settings) (now checked_at : ℕ) (ctx : Context) (outbox : Outbox) (row row' : CommandRow)
      → claim_outbox digest s now checked_at ctx outbox row ≡ settled row'
      → IsFinished row'
  unfolding claim_outbox
  claim_outbox-IsFinished s now checked_at ctx outbox row row' h =
      elim (Bool-cases (is_due outbox now)) [
        | inr later ↦ cc (rw later at h)
        | inl due ↦ elim (Bool-cases (leb s.max_attempts outbox.attempt_count)) [
          | inl spent ↦
              let same_row : exhaust_leases digest now outbox row ≡ row' =
                cc (rw (due, spent) at h) in
              subst IsFinished same_row (exhaust_leases-IsFinished now outbox row)
          | inr left ↦
              revalidate-IsFinished s now (refusal checked_at ctx row) outbox row row'
                (rw (due, left) at h)
        ]
      ]

  claim_found-IsFinished :
      (s : Settings) (now checked_at : ℕ) (ctx : Context) (o : Option Outbox)
      (row row' : CommandRow)
      → claim_found digest s now checked_at ctx o row ≡ settled row'
      → IsFinished row'
  unfolding claim_found
  claim_found-IsFinished s now checked_at ctx none row row' h = cc
  claim_found-IsFinished s now checked_at ctx (some outbox) row row' h =
      claim_outbox-IsFinished s now checked_at ctx outbox row row' h

  dispatch_outbox-skipped :
      (s : Settings) (now checked_at later : ℕ) (ctx : Context) (o : Outcome) (rs : List Request)
      (row : CommandRow)
      → claim_row digest s now checked_at ctx row ≡ skipped
      → dispatch_outbox digest s now checked_at later ctx o rs row ≡ none
  unfolding dispatch_outbox publish_claim
  dispatch_outbox-skipped s now checked_at later ctx o rs row h = rw h refl

  claimed_outbox :
      (s : Settings) (now checked_at : ℕ) (ctx : Context) (row : CommandRow) (n : ℕ)
      (row' : CommandRow)
      → claim_row digest s now checked_at ctx row ≡ claimed_as n row'
      → (o : Outbox) × (row'.outbox ≡ some o)
  claimed_outbox s now checked_at ctx row n row' h =
      let c = claim_row-IsClaimed digest s now checked_at ctx row n row' h in
      let (o, e) = take_lease-outbox s now c.outbox row in (o, rw c.leased e)

  -- The row after a call that went as far as it could: its outbox is never due again.
  published-IsFinished :
      (s : Settings) (now checked_at later : ℕ) (ctx : Context) (o : Outcome) (rs : List Request)
      (row row' : CommandRow) (x : Claim)
      → MayBeDelivered o
      → claim_row digest s now checked_at ctx row ≡ x
      → publish_claim digest s later o rs x ≡ some row'
      → IsFinished row'
  unfolding publish_claim claim_row
  published-IsFinished s now checked_at later ctx o rs row row' skipped d e h = cc
  published-IsFinished s now checked_at later ctx o rs row row' (settled last) d e h =
      let same_row : last ≡ row' = cc in
      subst IsFinished same_row (claim_found-IsFinished s now checked_at ctx row.outbox row last e)
  published-IsFinished s now checked_at later ctx o rs row row' (claimed_as n leased) d e h =
      let reported = transition_all digest rs (sign digest o leased) in
      let same_row : record_outcome digest s later n o reported ≡ row' = cc in
      let (outbox, found) = claimed_outbox s now checked_at ctx row n leased e in
      subst IsFinished same_row (
        delivered-IsFinished digest s later n o reported outbox d
          (transition_all-outbox digest rs (sign digest o leased) ∙ sign-outbox o leased ∙ found))

  -- After a call of `dispatch_outbox` that returns a command, with an answer by which the broker may
  -- have the message, and any reports of the Gateway on the row that it left, the next call returns
  -- nothing, at any time, under any settings and for any tables.
  pub dispatch_outbox_once :
      (s s' : Settings) (now checked_at later now' checked_at' later' : ℕ) (ctx ctx' : Context)
      (o o' : Outcome) (rs between rs' : List Request) (row row' : CommandRow)
      → MayBeDelivered o
      → dispatch_outbox digest s now checked_at later ctx o rs row ≡ some row'
      → dispatch_outbox digest s' now' checked_at' later' ctx' o' rs'
          (transition_all digest between row')
        ≡ none
  unfolding dispatch_outbox
  dispatch_outbox_once s s' now checked_at later now' checked_at' later' ctx ctx' o o' rs between
        rs' row row' d h =
      dispatch_outbox-skipped s' now' checked_at' later' ctx' o' rs'
        (transition_all digest between row')
        (IsFinished-skips digest s' now' checked_at' ctx' between row' (
          published-IsFinished s now checked_at later ctx o rs row row'
            (claim_row digest s now checked_at ctx row) d refl h))
