-- ===== src/Gateways/Release/Dispatch.antt =====
-- apps/devices/gateway_release.py: `dispatch_gateway_release`.
use novena_hub.Prelude.{
  ℕ, ◌+◌, Bool, true, false, not, ◌&&◌, ◌||◌, String, Option, none, some, leb, ltb, seconds, find?,
  update_first, if◌then◌else◌, ◌==◌, is_some,
}
use novena_hub.RemoteControl.Types.{EventPayload}
use novena_hub.Gateways.Delivery.Dispatch.{is_past, is_free}
use novena_hub.Gateways.Release.{
  ReleaseStatus, ReleaseRequest, Ownership, is_completed_release, retry_release,
}
use novena_hub.Gateways.Release.Finalize.{finalize_release}

pub record ReleaseSettings : Type 0 where
  pub lease_seconds : ℕ
  pub retry_max_seconds : ℕ
  pub provisioning_required : Bool

-- What happens outside the database: the error, if there is one, of each of the three calls, the
-- clock when the end is recorded, and the token that is drawn.
pub record Effects : Type 0 where
  pub publish_gateway_release : Option String
  pub clear_gateway_retained_policy : Option String
  pub deprovision_gateway_mqtt : Option String
  pub recorded_at : ℕ
  pub token : String

unfoldable pub is_claimable_release : ℕ → ReleaseRequest → Bool
is_claimable_release now r = elim r.status [
  | ReleaseStatus.queued ↦ true
  | ReleaseStatus.retry ↦ true
  | ReleaseStatus.needs_attention ↦ true
  | ReleaseStatus.revoking ↦ is_past r.lease_expires_at now
  | ReleaseStatus.completed ↦ false
]

unfoldable pub claim_release : ReleaseSettings → ℕ → ReleaseRequest → ReleaseRequest
claim_release c now r = record r {
  status = ReleaseStatus.revoking;
  claimed_at = some now;
  lease_expires_at = some (now + seconds c.lease_seconds);
  attempt_count = r.attempt_count + 1;
}

abbrev first_error : Option String → Option String → Option String
first_error none e = e
first_error (some e) f = some e

-- Why the attempt cannot finish the release, if so: the argument of `_retry_release`.
unfoldable pub revocation_error : ReleaseSettings → Effects → ReleaseRequest → Option String
revocation_error c e r =
    if not (is_some r.edge_reset_at)
    then first_error e.publish_gateway_release
        (some "Waiting for the Gateway to confirm its local reset.")
    else if not c.provisioning_required
    then some "Gateway release requires verified MQTT credential revocation."
    else first_error e.clear_gateway_retained_policy e.deprovision_gateway_mqtt

abbrev write_release : ℕ → (ReleaseRequest → ReleaseRequest) → Ownership → Ownership
write_release pk f s = record s { releases = update_first (λ r. r.pk == pk) f s.releases }

module _ (digest : EventPayload → ℕ) where
  unfoldable pub finish_release :
      ReleaseSettings → Effects → ℕ → Option String → Ownership → Ownership
  unfolding retry_release finalize_release
  finish_release c e pk none s = finalize_release digest e.recorded_at e.token pk s
  finish_release c e pk (some error) s =
      write_release pk (retry_release c.retry_max_seconds e.recorded_at error) s

  unfoldable pub dispatch_found :
      ReleaseSettings → Effects → ℕ → ReleaseRequest → Ownership → Ownership
  unfolding is_claimable_release claim_release revocation_error finish_release
  dispatch_found c e now r s =
      if not (is_claimable_release now r) || ltb now r.next_attempt_at
      then s
      else finish_release c e r.pk (revocation_error c e (claim_release c now r))
          (write_release r.pk (claim_release c now) s)

  -- `dispatch_gateway_release`, when nothing else writes the rows meanwhile.
  unfoldable pub dispatch_gateway_release :
      ReleaseSettings → Effects → ℕ → ℕ → Ownership → Ownership
  unfolding dispatch_found
  dispatch_gateway_release c e now pk s = elim (find? (λ r. r.pk == pk) s.releases) [
    | none ↦ s
    | some r ↦ dispatch_found c e now r s
  ]

-- Whether the query of `dispatch_due_gateway_releases` finds a release.
unfoldable pub is_listed_release : ℕ → ReleaseRequest → Bool
unfolding is_completed_release
is_listed_release now r =
    not (is_completed_release r.status)
    && (leb r.next_attempt_at now && is_free r.lease_expires_at now)
