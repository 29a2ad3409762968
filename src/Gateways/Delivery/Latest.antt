-- ===== src/Gateways/Delivery/Latest.antt =====
-- apps/devices/gateway_config_delivery.py: proofs on the table after `queue_gateway_config`.
use novena_hub.Prelude.{
  ℕ, ◌<◌, ◌≡◌, refl, true, false, String, List, [], ◌∷◌, Each, ended, paired, arith, inl, inr,
  Bool-cases, ◌⊎◌,
}
use novena_hub.Json.{Json}
use novena_hub.Gateways.Types.{EdgeGateway, returned}
use novena_hub.Gateways.Delivery.{
  ConfigStatus, is_settled, EnvelopeBody, ConfigRow, DeliverySettings,
}
use novena_hub.Gateways.Delivery.Queue.{
  QueueRequest, is_of, is_open, latest_revision, supersede_open, queue_gateway_config,
  record_config, new_config,
}
use novena_hub.Gateways.Delivery.Steps.{queue-writes}

closed-IsSettled : (status : ConfigStatus) → is_open status ≡ false → is_settled status ≡ true
unfolding is_open is_settled
closed-IsSettled ConfigStatus.queued h = cc
closed-IsSettled ConfigStatus.waiting_for_gateway h = cc
closed-IsSettled ConfigStatus.published h = cc
closed-IsSettled ConfigStatus.accepted h = cc
closed-IsSettled ConfigStatus.active h = refl
closed-IsSettled ConfigStatus.failed h = refl
closed-IsSettled ConfigStatus.rolled_back h = refl
closed-IsSettled ConfigStatus.timed_out h = cc
closed-IsSettled ConfigStatus.superseded h = refl

-- A row of the Gateway is settled, and a row of another is as it was.
abbrev pub Cleared : ℕ → ConfigRow → ConfigRow → Type 0
Cleared gateway old new =
    ((is_of gateway old ≡ true) × (is_settled new.config.status ≡ true))
    ⊎ ((is_of gateway old ≡ false) × (new ≡ old))

supersede_open-Cleared :
    (gateway : ℕ) (rows : List ConfigRow)
    → Each (Cleared gateway) rows (supersede_open gateway rows)
unfolding supersede_open is_settled
supersede_open-Cleared gateway [] = ended
supersede_open-Cleared gateway (row ∷ rows) =
    let rest = supersede_open-Cleared gateway rows in
    elim (Bool-cases (is_of gateway row)) [
      | inl mine ↦ elim (Bool-cases (is_open row.config.status)) [
        | inl live ↦ rw (mine, live) (paired (inl (mine, refl)) rest)
        | inr closed ↦
            rw (mine, closed) (paired (inl (mine, closed-IsSettled row.config.status closed)) rest)
      ]
      | inr other ↦ rw other (paired (inr (other, refl)) rest)
    ]

-- What `queue_gateway_config` leaves: a new row with the greatest revision, and the older rows.
pub record Queued (gateway : ℕ) (rows rows' : List ConfigRow) : Type 0 where
  pub newest : ConfigRow
  pub older : List ConfigRow
  pub splits : rows' ≡ newest ∷ older
  pub mine : newest.config.gateway_id ≡ gateway
  pub waits : newest.config.status ≡ ConfigStatus.queued
  pub is_greatest : latest_revision gateway rows < newest.config.revision
  pub clears : Each (Cleared gateway) rows older

module _ (payload_checksum : Json → String) (sign_payload : EnvelopeBody → String × String) where
  -- When `queue_gateway_config` returns, the table is a new row in front of the old ones: it belongs
  -- to the locked Gateway, is queued, and has a greater revision than any row that the Gateway had;
  -- each old row of the Gateway is now settled, and each row of another Gateway is as it was.
  pub queue_gateway_config-Queued :
      (s : DeliverySettings) (given locked : EdgeGateway) (r : QueueRequest)
      (rows rows' : List ConfigRow)
      → queue_gateway_config payload_checksum sign_payload s given locked r rows ≡ returned rows'
      → Queued locked.pk rows rows'
  unfolding record_config new_config
  queue_gateway_config-Queued s given locked r rows rows' h = record {
    newest = _;
    older = supersede_open locked.pk rows;
    splits = queue-writes payload_checksum sign_payload s given locked r rows rows' h;
    mine = refl;
    waits = refl;
    is_greatest = omega arith;
    clears = supersede_open-Cleared locked.pk rows;
  }
