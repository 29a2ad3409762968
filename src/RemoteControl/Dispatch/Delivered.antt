-- ===== src/RemoteControl/Dispatch/Delivered.antt =====
-- apps/devices/remote_control.py: proofs on a call of `dispatch_outbox` that the broker acknowledges.
use novena_hub.Prelude.{
  ℕ, ◌+◌, ◌≤◌, ◌<◌, ◌≡◌, refl, ◌∙◌, ap, true, Option, none, some, List, [], ◌∷◌, arith, ltb,
  Bool-cases, inl, inr, seconds,
}
use novena_hub.RemoteControl.Types.{Status, OutboxStatus, EventPayload, Outbox, CommandRow}
use novena_hub.RemoteControl.Catalog.{status_order}
use novena_hub.RemoteControl.Events.{append_event}
use novena_hub.RemoteControl.Transition.{Request, apply_updates, transition_command}
use novena_hub.RemoteControl.Transition.Laws.{Ends, same, refused, advanced, transition-Ends}
use novena_hub.RemoteControl.Dispatch.{Settings, is_due, raise_to}
use novena_hub.RemoteControl.Dispatch.Claim.{
  claimed_as, Context, take_lease, revalidate, claim_outbox, claim_found, claim_row,
}
use novena_hub.RemoteControl.Dispatch.Record.{
  Signature, acknowledged, store_signature, sign, record_acknowledged, record_with, record_found,
  record_outcome, transition_all, publish_claim, dispatch_outbox,
}
use novena_hub.RemoteControl.Dispatch.Safety.{refusal}
use novena_hub.RemoteControl.Dispatch.Meanwhile.{transition_all-outbox}

raise_to_above :
    (target status : Status) → status_order target ≤ status_order (raise_to target status)
unfolding raise_to
raise_to_above target status = elim (Bool-cases (ltb (status_order status) (status_order target))) [
  | inl b ↦ rw b (ground arith)
  | inr b ↦ rw b (ground arith)
]

-- The signature that a row keeps.
abbrev signature_of : CommandRow → Signature
signature_of row = record { key_id = row.command.signing_key_id; value = row.command.signature }

module _ (digest : EventPayload → ℕ) where
  report-signature :
      (r : Request) (row : CommandRow)
      → Ends digest r row
      → signature_of (transition_command digest r row).0 ≡ signature_of row
  unfolding append_event apply_updates
  report-signature r row (same e h) = rw h refl
  report-signature r row (refused ne t h) = rw h refl
  report-signature r row (advanced ne t o h) = rw h refl

  transition_all-signature :
      (rs : List Request) (row : CommandRow)
      → signature_of (transition_all digest rs row) ≡ signature_of row
  unfolding transition_all
  transition_all-signature [] row = refl
  transition_all-signature (r ∷ rest) row =
      transition_all-signature rest (transition_command digest r row).0
      ∙ report-signature r row (transition-Ends digest r row)

  -- A row that is due, with attempts left and nothing to refuse, is claimed.
  pub due_claims :
      (s : Settings) (now checked_at : ℕ) (ctx : Context) (row : CommandRow) (o : Option Outbox)
      {outbox : Outbox}
      → o ≡ some outbox
      → is_due outbox now ≡ true
      → outbox.attempt_count < s.max_attempts
      → refusal checked_at ctx row ≡ none
      → claim_found digest s now checked_at ctx o row
        ≡ claimed_as (outbox.attempt_count + 1) (take_lease digest s now outbox row)
  unfolding claim_found claim_outbox revalidate
  due_claims s now checked_at ctx row none e due left free = cc
  due_claims s now checked_at ctx row (some o) {outbox} e due left free = ground arith

  -- The row of a command whose message the broker has acknowledged.
  pub record IsDelivered (now later : ℕ) (g : Signature) (outbox : Outbox) (row : CommandRow)
      : Type 0 where
    pub status : status_order Status.broker_acknowledged ≤ status_order row.command.status
    pub transport : row.command.transport_status ≡ "broker_acknowledged"
    pub at : row.command.broker_acknowledged_at ≡ some later
    pub signed : signature_of row ≡ g
    pub published :
        row.outbox
        ≡ some (record outbox {
          status = OutboxStatus.published;
          published_at = some later;
          claimed_at = some now;
          lease_expires_at = none;
          attempt_count = outbox.attempt_count + 1;
        })

  recorded-IsDelivered :
      (s : Settings) (now later n q : ℕ) (g : Signature) (outbox leased : Outbox)
      (o : Option Outbox) (row : CommandRow)
      → o ≡ some leased
      → leased ≡ record outbox {
        status = OutboxStatus.claimed;
        claimed_at = some now;
        lease_expires_at = leased.lease_expires_at;
        attempt_count = outbox.attempt_count + 1;
      }
      → signature_of row ≡ g
      → IsDelivered now later g outbox (record_found digest s later n (acknowledged g q) o row)
  unfolding record_found record_with record_acknowledged append_event
  recorded-IsDelivered s now later n q g outbox leased none row e f h = cc
  recorded-IsDelivered s now later n q g outbox leased (some o) row e f h =
      let same_outbox : o ≡ leased = cc in
      record {
        status = raise_to_above Status.broker_acknowledged row.command.status;
        transport = refl;
        at = refl;
        signed = h;
        published =
            ap
              (λ (x : Outbox). some (record x {
                status = OutboxStatus.published;
                published_at = some later;
                lease_expires_at = none;
              }))
              (same_outbox ∙ f);
      }

  -- `dispatch_outbox` on a command whose outbox row is due, with attempts left, and which the
  -- revalidation does not refuse, when the broker acknowledges: it returns the command, whatever the
  -- Gateway has reported meanwhile, at least acknowledged by the broker in the order of statuses, with
  -- the time and the signature stored; its outbox row is published, without a lease, with one attempt
  -- more.
  pub dispatch_outbox-IsDelivered :
      (s : Settings) (now checked_at later q : ℕ) (ctx : Context) (g : Signature)
      (rs : List Request) (row : CommandRow) (outbox : Outbox)
      → row.outbox ≡ some outbox
      → is_due outbox now ≡ true
      → outbox.attempt_count < s.max_attempts
      → refusal checked_at ctx row ≡ none
      → (row' : CommandRow) × (dispatch_outbox digest s now checked_at later ctx
            (acknowledged g q)
            rs
            row
          ≡ some row')
        × IsDelivered now later g outbox row'
  unfolding dispatch_outbox publish_claim claim_row sign store_signature record_outcome
  dispatch_outbox-IsDelivered s now checked_at later q ctx g rs row outbox found due left free =
      let n = outbox.attempt_count + 1 in
      let leased = take_lease digest s now outbox row in
      let signed = store_signature digest g leased in
      let claimed = due_claims s now checked_at ctx row row.outbox found due left free in
      (
        record_outcome digest s later n (acknowledged g q) (transition_all digest rs signed),
        ap (λ x. publish_claim digest s later (acknowledged g q) rs x) claimed,
        recorded-IsDelivered s now later n q g outbox
            (record outbox {
              status = OutboxStatus.claimed;
              claimed_at = some now;
              lease_expires_at = some (now + seconds s.lease_seconds);
              attempt_count = n;
            })
            (transition_all digest rs signed).outbox (transition_all digest rs signed)
            (transition_all-outbox digest rs signed ∙ unfold take_lease in refl) refl
            (transition_all-signature rs signed),
      )
