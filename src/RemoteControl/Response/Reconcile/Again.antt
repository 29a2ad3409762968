-- ===== src/RemoteControl/Response/Reconcile/Again.antt =====
-- apps/telemetry/management/commands/mqtt_consumer.py: proofs on a journal that is reported again.
use novena_hub.Prelude.{
  ℕ, ◌≤◌, ◌≡◌, refl, sym, subst, Bool, true, false, not, ◌||◌, List, [], ◌∷◌, ltb, inl, inr,
  Bool-cases, if◌then◌else◌, arith, All,
}
use novena_hub.Json.{Fields}
use novena_hub.RemoteControl.Types.{Status, EventPayload, CommandRow}
use novena_hub.RemoteControl.Catalog.{is_terminal, status_order}
use novena_hub.RemoteControl.Events.{append_event}
use novena_hub.RemoteControl.Transition.{apply_updates, refuses, transition_command}
use novena_hub.RemoteControl.Transition.Laws.{Ends, same, refused, advanced, transition-Ends}
use novena_hub.RemoteControl.Response.Reconcile.{
  EdgeEvent, reconciled_status, reconciliation, is_text, concerns, is_told, reconcile_event,
  reconcile,
}

status_order-bounded : (status : Status) → status_order status ≤ 110
unfolding status_order
status_order-bounded Status.requested = omega arith
status_order-bounded Status.awaiting_approval = omega arith
status_order-bounded Status.approved = omega arith
status_order-bounded Status.queued = omega arith
status_order-bounded Status.dispatching = omega arith
status_order-bounded Status.publish_accepted = omega arith
status_order-bounded Status.outcome_unknown = omega arith
status_order-bounded Status.broker_acknowledged = omega arith
status_order-bounded Status.gateway_received = omega arith
status_order-bounded Status.executing = omega arith
status_order-bounded Status.field_protocol_accepted = omega arith
status_order-bounded Status.action_initiated = omega arith
status_order-bounded Status.verification_pending = omega arith
status_order-bounded Status.verified = omega arith
status_order-bounded Status.action_completed = omega arith
status_order-bounded Status.policy_denied = omega arith
status_order-bounded Status.rejected = omega arith
status_order-bounded Status.failed = omega arith
status_order-bounded Status.expired = omega arith
status_order-bounded Status.timed_out = omega arith
status_order-bounded Status.cancelled = omega arith
status_order-bounded Status.reconciled_verified = omega arith
status_order-bounded Status.reconciled_not_applied = omega arith
status_order-bounded Status.reconciled_unresolved = omega arith

abbrev chosen : Bool → Bool → Status
chosen a b =
    if a
    then Status.reconciled_verified
    else if b
    then Status.reconciled_not_applied
    else Status.reconciled_unresolved

chosen-terminal : (a b : Bool) → is_terminal (chosen a b) ≡ true
unfolding is_terminal
chosen-terminal true b = refl
chosen-terminal false true = refl
chosen-terminal false false = refl

chosen-greatest : (a b : Bool) → status_order (chosen a b) ≡ 110
unfolding status_order
chosen-greatest true b = refl
chosen-greatest false true = refl
chosen-greatest false false = refl

reconciled-terminal : (e : EdgeEvent) → is_terminal (reconciled_status e) ≡ true
unfolding reconciled_status is_terminal
reconciled-terminal e = chosen-terminal _ (is_text e.stage "rejected")

reconciled-greatest : (e : EdgeEvent) → status_order (reconciled_status e) ≡ 110
unfolding reconciled_status status_order
reconciled-greatest e = chosen-greatest _ (is_text e.stage "rejected")

or_ltb-true : (b : Bool) (m n : ℕ) → n ≤ m → (b || ltb m n) ≡ true → b ≡ true
or_ltb-true b m n h k = ground arith

-- A reconciliation is refused to a command that has ended only.
refuses-terminal :
    (e : EdgeEvent) (status : Status)
    → refuses status (reconciled_status e) ≡ true
    → is_terminal status ≡ true
unfolding refuses
refuses-terminal e status h =
    or_ltb-true (is_terminal status) (status_order (reconciled_status e)) (status_order status)
      (rw (reconciled-greatest e) (status_order-bounded status)) h

-- A row is as it was, or it has ended.
data Moved (row row' : CommandRow) : Type 0 where
  still : row' ≡ row → Moved row row'
  moved : is_terminal row'.command.status ≡ true → Moved row row'

module _ (same_document : Fields → Fields → Bool) (digest : EventPayload → ℕ) (gateway : ℕ) where
  -- An entry has nothing left to do for a row.
  data Done (e : EdgeEvent) (row : CommandRow) : Type 0 where
    elsewhere : concerns gateway e row ≡ false → Done e row
    ended : is_terminal row.command.status ≡ true → Done e row
    told : is_told same_document digest gateway e row ≡ true → Done e row

  transition-Moved :
      (e : EdgeEvent) (row : CommandRow)
      → Ends digest (reconciliation e) row
      → Moved row (transition_command digest (reconciliation e) row).0
  unfolding reconciliation apply_updates append_event
  transition-Moved e row (same s h) = rw h (still refl)
  transition-Moved e row (refused ne r h) = rw h (still refl)
  transition-Moved e row (advanced ne f o h) = rw h (moved (reconciled-terminal e))

  transition-ends :
      (e : EdgeEvent) (row : CommandRow)
      → Ends digest (reconciliation e) row
      → is_terminal (transition_command digest (reconciliation e) row).0.command.status ≡ true
  unfolding reconciliation apply_updates append_event
  transition-ends e row (same s h) = rw (h, s) (reconciled-terminal e)
  transition-ends e row (refused ne r h) = rw h (refuses-terminal e row.command.status r)
  transition-ends e row (advanced ne f o h) = rw h (reconciled-terminal e)

  ended_stays :
      (e : EdgeEvent) (row : CommandRow)
      → is_terminal row.command.status ≡ true
      → Ends digest (reconciliation e) row
      → (transition_command digest (reconciliation e) row).0 ≡ row
  unfolding reconciliation apply_updates
  ended_stays e row t (same s h) = rw h refl
  ended_stays e row t (refused ne r h) = rw h refl
  ended_stays e row t (advanced ne f o h) = cc

  reconcile_event-Moved :
      (e : EdgeEvent) (row : CommandRow)
      → Moved row (reconcile_event same_document digest gateway e row)
  unfolding reconcile_event
  reconcile_event-Moved e row =
      elim (Bool-cases
        (not (concerns gateway e row) || is_told same_document digest gateway e row)) [
          | inl s ↦ rw (reconcile_event, s) (still refl)
          | inr g ↦
              rw (reconcile_event, g)
                (transition-Moved e row (transition-Ends digest (reconciliation e) row))
        ]

  -- After its turn an entry has nothing left to do.
  reconcile_event-Done :
      (e : EdgeEvent) (row : CommandRow)
      → Done e (reconcile_event same_document digest gateway e row)
  unfolding reconcile_event
  reconcile_event-Done e row = elim (Bool-cases (concerns gateway e row)) [
    | inr out ↦ rw (reconcile_event, out) (elsewhere out)
    | inl mine ↦ elim (Bool-cases (is_told same_document digest gateway e row)) [
      | inl t ↦ rw (reconcile_event, mine, t) (told t)
      | inr n ↦
          rw (reconcile_event, mine, n)
            (ended (transition-ends e row (transition-Ends digest (reconciliation e) row)))
    ]
  ]

  Moved-Done : (e : EdgeEvent) (row row' : CommandRow) → Moved row row' → Done e row → Done e row'
  unfolding is_told
  Moved-Done e row row' (still s) d = subst (Done e) (sym s) d
  Moved-Done e row row' (moved t) d = ended t

  -- An entry that has nothing left to do does nothing.
  Done-stays :
      (e : EdgeEvent) (row : CommandRow)
      → Done e row
      → reconcile_event same_document digest gateway e row ≡ row
  unfolding reconcile_event
  Done-stays e row (elsewhere out) = rw (reconcile_event, out) refl
  Done-stays e row (told t) = elim (Bool-cases (concerns gateway e row)) [
    | inl mine ↦ rw (reconcile_event, mine, t) refl
    | inr out ↦ rw (reconcile_event, out) refl
  ]
  Done-stays e row (ended t) =
      elim (Bool-cases
        (not (concerns gateway e row) || is_told same_document digest gateway e row)) [
          | inl s ↦ rw (reconcile_event, s) refl
          | inr g ↦
              rw (reconcile_event, g)
                (ended_stays e row t (transition-Ends digest (reconciliation e) row))
        ]

  -- The whole journal.
  reconcile-Done :
      (e : EdgeEvent) (es : List EdgeEvent) (row : CommandRow)
      → Done e row
      → Done e (reconcile same_document digest gateway es row)
  unfolding reconcile
  reconcile-Done e [] row d = d
  reconcile-Done e (f ∷ fs) row d =
      reconcile-Done e fs (reconcile_event same_document digest gateway f row)
        (Moved-Done e row _ (reconcile_event-Moved f row) d)

  journal-Done :
      (es : List EdgeEvent) (row : CommandRow)
      → All (λ e. Done e (reconcile same_document digest gateway es row)) es
  unfolding reconcile
  journal-Done [] row = tt
  journal-Done (e ∷ es) row =
      let next = reconcile_event same_document digest gateway e row in
      (reconcile-Done e es next (reconcile_event-Done e row), journal-Done es next)

  journal_stays :
      (es : List EdgeEvent) (row : CommandRow)
      → All (λ e. Done e row) es
      → reconcile same_document digest gateway es row ≡ row
  unfolding reconcile
  journal_stays [] row h = refl
  journal_stays (e ∷ es) row (d, h) = rw (Done-stays e row d) (journal_stays es row h)

  -- A journal that a Gateway reports a second time changes nothing, neither the command nor its log,
  -- however the database compares documents.
  pub reconcile_idempotent :
      (es : List EdgeEvent) (row : CommandRow)
      → reconcile same_document digest gateway es (reconcile same_document digest gateway es row)
        ≡ reconcile same_document digest gateway es row
  reconcile_idempotent es row = journal_stays es _ (journal-Done es row)
