-- ===== src/RemoteControl/Response/Policy.antt =====
-- apps/telemetry/management/commands/mqtt_consumer.py: the acknowledgement of a policy bundle.
use novena_hub.Prelude.{
  ℕ, Bool, true, false, not, ◌&&◌, Option, some, List, any, ◌==◌, update_where, update_first,
  if◌then◌else◌,
}
use novena_hub.Readiness.Types.{PolicyBundle}

-- The query of the bundle that a Gateway acknowledges.
abbrev is_acknowledged : ℕ → ℕ → ℕ → PolicyBundle → Bool
is_acknowledged gateway revision epoch b =
    (b.gateway == gateway) && ((b.revision == revision) && (b.control_epoch == epoch))

-- The writes: the other bundles of the Gateway become inactive, and this one active.
unfoldable pub activate_bundle : ℕ → ℕ → ℕ → ℕ → List PolicyBundle → List PolicyBundle
activate_bundle now gateway revision epoch bundles =
    update_first (is_acknowledged gateway revision epoch)
      (λ b. record b { acknowledged_at = some now; is_active = true })
      (update_where
        (λ b.
          (b.gateway == gateway) && (b.is_active && not (is_acknowledged gateway revision epoch b)))
        (λ b. record b { is_active = false }) bundles)

-- `remote_control_policy_ack_revision` and `remote_control_policy_ack_epoch`. A Gateway has one
-- bundle of a revision, so that the query finds the row or none.
unfoldable pub acknowledge_policy :
    ℕ → ℕ → Option ℕ → Option ℕ → List PolicyBundle → List PolicyBundle
unfolding activate_bundle
acknowledge_policy now gateway (some revision) (some epoch) bundles =
    if any (is_acknowledged gateway revision epoch) bundles
    then activate_bundle now gateway revision epoch bundles
    else bundles
acknowledge_policy now gateway _ _ bundles = bundles
