-- ===== src/Gateways/Release/Emptied.antt =====
-- apps/devices/gateway_release.py: proofs on what a release leaves.
use novena_hub.Prelude.{
  ◌≤◌, arith, ℕ, ◌≡◌, refl, Bool, true, false, not, ◌||◌, ◌&&◌, String, Option, none, some, List,
  [], ◌⊎◌, inl, inr, All, All-map, Each, Each-map, Bool-cases, any, find?, ◌==◌, ltb, if◌then◌else◌,
}
use novena_hub.RemoteControl.Types.{Status, EventPayload, CommandRow}
use novena_hub.RemoteControl.Catalog.{is_terminal, status_order}
use novena_hub.RemoteControl.Transition.{apply_updates, refuses, transition_command}
use novena_hub.RemoteControl.Transition.Laws.{Ends, same, refused, advanced, transition-Ends}
use novena_hub.RemoteControl.Events.{append_event}
use novena_hub.Gateways.Release.{ReleaseRequest, Ownership, is_completed_release}
use novena_hub.Gateways.Release.Dispatch.{
  ReleaseSettings, Effects, is_claimable_release, claim_release, revocation_error, finish_release,
  dispatch_found, dispatch_gateway_release,
}
use novena_hub.Gateways.Release.Confirmed.{IsRevoked, claim-IsRevoked, revocation_error-IsRevoked}
use novena_hub.Gateways.Release.Finalize.{
  cancellation, cancel_pending, detach, is_deleted, close_activation, wipe_gateway, finalize_writes,
  finalize_release,
}

-- A command that has ended keeps its status and its log; another one is cancelled.
abbrev pub Closed : CommandRow → CommandRow → Type 0
Closed old new =
    ((is_terminal old.command.status ≡ true)
      × (new.command.status ≡ old.command.status)
      × (new.events ≡ old.events))
    ⊎ ((is_terminal old.command.status ≡ false) × (new.command.status ≡ Status.cancelled))

cancellable :
    (status : Status) → is_terminal status ≡ false → refuses status Status.cancelled ≡ false
unfolding is_terminal refuses status_order
cancellable Status.requested h = refl
cancellable Status.awaiting_approval h = refl
cancellable Status.approved h = refl
cancellable Status.queued h = refl
cancellable Status.dispatching h = refl
cancellable Status.publish_accepted h = refl
cancellable Status.broker_acknowledged h = refl
cancellable Status.gateway_received h = refl
cancellable Status.executing h = refl
cancellable Status.field_protocol_accepted h = refl
cancellable Status.verification_pending h = refl
cancellable Status.action_initiated h = refl
cancellable Status.outcome_unknown h = refl
cancellable _ h = cc

cancelled_unless_ended :
    (b : Bool) (row cancelled : CommandRow)
    → is_terminal row.command.status ≡ b
    → ((b ≡ false) → cancelled.command.status ≡ Status.cancelled)
    → Closed row (if b then row else cancelled)
cancelled_unless_ended true row cancelled t k = inl (t, refl, refl)
cancelled_unless_ended false row cancelled t k = inr (t, k refl)

module _ (digest : EventPayload → ℕ) where
  cancelled_of :
      (row : CommandRow)
      → is_terminal row.command.status ≡ false
      → Ends digest cancellation row
      → (transition_command digest cancellation row).0.command.status ≡ Status.cancelled
  unfolding apply_updates append_event
  cancelled_of row h (same e t) = rw t e
  cancelled_of row h (refused ne r t) = let ok = cancellable row.command.status h in (cc)
  cancelled_of row h (advanced ne f o t) = rw t refl

  cancel_pending-Closed : (row : CommandRow) → Closed row (cancel_pending digest row)
  unfolding cancel_pending
  cancel_pending-Closed row =
      cancelled_unless_ended (is_terminal row.command.status) row
        (transition_command digest cancellation row).0 refl
        (λ f. cancelled_of row f (transition-Ends digest cancellation row))

  detach-Closed :
      (devices : List ℕ) (old row : CommandRow) → Closed old row → Closed old (detach devices row)
  unfolding detach
  detach-Closed devices old row h = elim (Bool-cases (is_deleted devices row.command.device_id)) [
    | inl d ↦ rw d h
    | inr k ↦ rw k h
  ]

-- What a release leaves of a Gateway: commands that have ended, and no settings, devices or
-- credentials.
pub record Emptied (old new : Ownership) : Type 0 where
  pub commands : Each Closed old.commands new.commands
  pub passwords : All (λ a. a.encrypted_mqtt_password ≡ "") new.activations
  pub configs : new.configs ≡ []
  pub devices : new.devices ≡ []
  pub lifecycle : new.gateway.lifecycle_status ≡ "released"
  pub user : new.gateway.mqtt_username ≡ none
  pub password : new.gateway.mqtt_password ≡ ""
  pub private_key : new.gateway.client_key_pem ≡ ""

-- The rows beside the release requests are untouched, or the release with the key, which stands in the
-- table, was free to be claimed and due, has its reset confirmed and its credentials revoked, and has
-- emptied the Gateway.
abbrev pub IsWhole : ReleaseSettings → Effects → ℕ → ℕ → Ownership → Ownership → Type 0
IsWhole c e now pk old new =
    (new ≡ record old { releases = new.releases })
    ⊎ ((r : ReleaseRequest) × (find? (λ x. x.pk == pk) old.releases ≡ some r)
        × (is_claimable_release now r ≡ true)
        × (r.next_attempt_at ≤ now)
        × IsRevoked c e r
        × Emptied old new)

eligible :
    (now : ℕ) (r : ReleaseRequest)
    → (not (is_claimable_release now r) || ltb now r.next_attempt_at) ≡ false
    → (is_claimable_release now r ≡ true) × (r.next_attempt_at ≤ now)
eligible now r h = (ground arith, ground arith)

module _ (digest : EventPayload → ℕ) (c : ReleaseSettings) (e : Effects) (now : ℕ) where
  finalize_writes-Emptied :
      (at : ℕ) (token : String) (pk : ℕ) (s : Ownership) (rows : List ReleaseRequest)
      → Emptied s (finalize_writes digest at token pk (record s { releases = rows }))
  unfolding finalize_writes wipe_gateway close_activation
  finalize_writes-Emptied at token pk s rows = record {
    commands =
        Each-map (λ row. detach s.devices (cancel_pending digest row))
          (λ row. detach-Closed digest s.devices row _ (cancel_pending-Closed digest row))
          s.commands;
    passwords =
        All-map (λ a. a.encrypted_mqtt_password ≡ "") close_activation (λ a. refl) s.activations;
    configs = refl;
    devices = refl;
    lifecycle = refl;
    user = refl;
    password = refl;
    private_key = refl;
  }

  finish-IsWhole :
      (o : Option String) (pk : ℕ) (r : ReleaseRequest) (s : Ownership) (rows : List ReleaseRequest)
      → find? (λ x. x.pk == pk) s.releases ≡ some r
      → (is_claimable_release now r ≡ true) × (r.next_attempt_at ≤ now)
      → revocation_error c e (claim_release c now r) ≡ o
      → IsWhole c e now pk s (finish_release digest c e r.pk o (record s { releases = rows }))
  unfolding finish_release finalize_release
  finish-IsWhole (some error) pk r s rows found due h = inl refl
  finish-IsWhole none pk r s rows found (free, due) h =
      elim (Bool-cases (any (λ x. (x.pk == r.pk) && is_completed_release x.status) rows)) [
        | inl done ↦ rw done (inl refl)
        | inr still ↦ rw still (
            inr (
              r,
              found,
              free,
              due,
              claim-IsRevoked c e now r (revocation_error-IsRevoked c e (claim_release c now r) h),
              finalize_writes-Emptied e.recorded_at e.token r.pk s rows,
            ))
      ]

  found-IsWhole :
      (pk : ℕ) (r : ReleaseRequest) (s : Ownership)
      → find? (λ x. x.pk == pk) s.releases ≡ some r
      → IsWhole c e now pk s (dispatch_found digest c e now r s)
  unfolding dispatch_found
  found-IsWhole pk r s found =
      elim (Bool-cases (not (is_claimable_release now r) || ltb now r.next_attempt_at)) [
        | inl skip ↦ rw skip (inl refl)
        | inr go ↦ rw go (
            finish-IsWhole (revocation_error c e (claim_release c now r)) pk r s _ found
              (eligible now r go) refl)
      ]

  looked-IsWhole :
      (pk : ℕ) (s : Ownership) (o : Option ReleaseRequest)
      → find? (λ x. x.pk == pk) s.releases ≡ o
      → IsWhole c e now pk s (elim o [ none ↦ s | some r ↦ dispatch_found digest c e now r s ])
  looked-IsWhole pk s none h = inl refl
  looked-IsWhole pk s (some r) h = found-IsWhole pk r s h

  -- `dispatch_gateway_release` is all or nothing: either it writes the release requests only, or the
  -- release that stands under the given key was free to be claimed and due, has a confirmed reset,
  -- provisioning is required, policy and credentials are revoked, and the Gateway is left released
  -- and without MQTT user, password and private key, its activations without passwords, its
  -- configurations and devices gone, every command that had ended as it was in status and log, and
  -- every other one cancelled.
  pub dispatch_gateway_release-IsWhole :
      (pk : ℕ) (s : Ownership) → IsWhole c e now pk s (dispatch_gateway_release digest c e now pk s)
  unfolding dispatch_gateway_release
  dispatch_gateway_release-IsWhole pk s =
      looked-IsWhole pk s (find? (λ r. r.pk == pk) s.releases) refl
