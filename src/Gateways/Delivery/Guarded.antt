-- ===== src/Gateways/Delivery/Guarded.antt =====
-- apps/devices/gateway_config_delivery.py: proofs on what an acknowledgement can change.
use novena_hub.Prelude.{
  ℕ, ◌≡◌, refl, true, some, List, ◌==◌, Each, Each-update_first, find?-sound, Bool-cases, inl, inr,
  ◌⊎◌, arith,
}
use novena_hub.Gateways.Types.{returned}
use novena_hub.Gateways.Delivery.{ConfigStatus, ConfigRow, DeliverySettings}
use novena_hub.Gateways.Delivery.Queue.{latest_revision}
use novena_hub.Gateways.Delivery.Acknowledge.{
  Attributes, Identity, identity_of, is_identified, is_requested, Report, acknowledge_row,
  acknowledge_gateway_config, outdate,
}
use novena_hub.Gateways.Delivery.Steps.{acknowledge-Acknowledged}

-- A row that an acknowledgement changes: it is the one whose identity the acknowledgement carries,
-- and, unless it has the latest revision of its Gateway, it is superseded.
pub record Answered (gateway latest : ℕ) (a : Attributes) (old new : ConfigRow) : Type 0 where
  pub identity : Identity
  pub carries : identity_of a ≡ some identity
  pub asks_for : is_requested identity.request_id gateway old ≡ true
  pub matches : is_identified identity old.config ≡ true
  pub is_latest : (old.config.revision ≡ latest) ⊎ (new.config.status ≡ ConfigStatus.superseded)

abbrev pub Guarded : ℕ → ℕ → Attributes → ConfigRow → ConfigRow → Type 0
Guarded gateway latest a old new = (new ≡ old) ⊎ Answered gateway latest a old new

latest_or_superseded :
    (s : DeliverySettings) (now latest : ℕ) (r : Report) (a : Attributes) (row : ConfigRow)
    → (row.config.revision ≡ latest)
      ⊎ ((acknowledge_row s now latest r a row).config.status ≡ ConfigStatus.superseded)
unfolding acknowledge_row outdate
latest_or_superseded s now latest r a row = elim (Bool-cases (row.config.revision == latest)) [
  | inl e ↦ inl (ground arith)
  | inr e ↦ inr (rw e refl)
]

-- When `acknowledge_gateway_config` returns, every row is as it was, but the one whose request id,
-- revision, checksum and idempotency key the acknowledgement carries; and that one is superseded
-- unless its revision is the latest of the Gateway.
pub acknowledge_gateway_config-Guarded :
    (s : DeliverySettings) (now gateway : ℕ) (a : Attributes) (rows rows' : List ConfigRow)
    → acknowledge_gateway_config s now gateway a rows ≡ returned rows'
    → Each (Guarded gateway (latest_revision gateway rows) a) rows rows'
acknowledge_gateway_config-Guarded s now gateway a rows rows' h =
    let done = acknowledge-Acknowledged s now gateway a rows rows' h in
    rw done.writes (
      Each-update_first (λ row. inl refl) _ _ rows done.finds
        (inr (record {
          identity = done.identity;
          carries = done.carries;
          asks_for =
              (find?-sound (is_requested done.identity.request_id gateway) rows done.finds).1;
          matches = done.matches;
          is_latest =
              latest_or_superseded s now (latest_revision gateway rows) done.report a done.found;
        })))
