-- ===== src/Gateways/Delivery/Steps.antt =====
-- apps/devices/gateway_config_delivery.py: the transactions of delivery in any order, with proofs on
-- the table that they reach.
use novena_hub.Prelude.{
  ℕ, ◌<◌, ◌≡◌, refl, true, String, Option, none, some, List, [], ◌∷◌, ◌==◌, All, Each, ended,
  paired, Each-update_where, Each-update_first_of, arith, inl, inr, Bool-cases, find?, update_first,
  Option-cases,
}
use novena_hub.Json.{Json}
use novena_hub.Freshness.{Thresholds}
use novena_hub.Gateways.Types.{EdgeGateway, returned, raised}
use novena_hub.Gateways.Delivery.{EnvelopeBody, ConfigRow, DeliverySettings}
use novena_hub.Gateways.Delivery.Queue.{
  QueueRequest, latest_revision, build_signed_config_envelope, envelope_body, queue_gateway_config,
  queue_error, record_config, new_config, supersede_open,
}
use novena_hub.Gateways.Delivery.Dispatch.{row_of, begin_dispatch, Publication, finish_dispatch}
use novena_hub.Gateways.Delivery.Acknowledge.{
  Attributes, Identity, Report, identity_of, incoming, is_identified, is_requested, acknowledge_row,
  acknowledge_found, acknowledge_gateway_config,
}
use novena_hub.Gateways.Delivery.Kept.{
  Kept, Kept-refl, supersede-Kept, begin_dispatch-Kept, finish_dispatch-Kept, acknowledge_row-Kept,
}

-- The rows stand newest first: every row has a greater revision than the older ones of its Gateway.
abbrev pub IsOrdered : List ConfigRow → Type 0
IsOrdered [] = Unit
IsOrdered (row ∷ rows) =
    latest_revision row.config.gateway_id rows < row.config.revision × IsOrdered rows

latest-Kept :
    (gateway : ℕ) {old new : List ConfigRow}
    → Each Kept old new
    → latest_revision gateway new ≡ latest_revision gateway old
unfolding latest_revision
latest-Kept gateway ended = refl
latest-Kept gateway (paired k rest) = rw (k.gateway_id, k.revision, latest-Kept gateway rest) refl

IsOrdered-Kept : {old new : List ConfigRow} → Each Kept old new → IsOrdered old → IsOrdered new
IsOrdered-Kept ended h = h
IsOrdered-Kept (paired k rest) (lt, h) =
    (rw (k.gateway_id, k.revision, latest-Kept _ rest) lt, IsOrdered-Kept rest h)

-- What `acknowledge_gateway_config` has checked when it returns, and what it has written.
pub record Acknowledged (s : DeliverySettings) (now gateway : ℕ) (a : Attributes)
    (rows rows' : List ConfigRow) : Type 0 where
  pub identity : Identity
  pub found : ConfigRow
  pub report : Report
  pub carries : identity_of a ≡ some identity
  pub finds : find? (is_requested identity.request_id gateway) rows ≡ some found
  pub matches : is_identified identity found.config ≡ true
  pub reports : incoming a.config_update_status ≡ some report
  pub writes :
      rows'
      ≡ update_first
          (is_requested identity.request_id gateway)
          (acknowledge_row s now (latest_revision gateway rows) report a)
          rows

module _ (s : DeliverySettings) (now gateway : ℕ) (a : Attributes)
    (rows rows' : List ConfigRow) where
  found-Acknowledged :
      (i : Identity) (o : Option ConfigRow)
      → identity_of a ≡ some i
      → find? (is_requested i.request_id gateway) rows ≡ o
      → acknowledge_found s now gateway a i rows o ≡ returned rows'
      → Acknowledged s now gateway a rows rows'
  unfolding acknowledge_found
  found-Acknowledged i none e f h = cc
  found-Acknowledged i (some found) e f h = elim (Bool-cases (is_identified i found.config)) [
    | inl m ↦ elim (Option-cases (incoming a.config_update_status)) [
      | inl k ↦
          let z : raised "Signed configuration acknowledgement has an invalid status."
              ≡ returned rows' =
            rw (m, k) at h in
          (cc)
      | inr (report, k) ↦ record {
        identity = i;
        found = found;
        report = report;
        carries = e;
        finds = f;
        matches = m;
        reports = k;
        writes =
            let z : returned (
                  update_first (is_requested i.request_id gateway)
                    (acknowledge_row s now (latest_revision gateway rows) report a) rows)
                ≡ returned rows' =
              rw (m, k) at h in
            (cc);
      }
    ]
    | inr m ↦
        let z : raised "Signed configuration acknowledgement identity does not match."
            ≡ returned rows' =
          rw m at h in
        (cc)
  ]

  pub acknowledge-Acknowledged :
      acknowledge_gateway_config s now gateway a rows ≡ returned rows'
      → Acknowledged s now gateway a rows rows'
  unfolding acknowledge_gateway_config
  acknowledge-Acknowledged h = elim (Option-cases (identity_of a)) [
    | inl e ↦
        let z : raised "Signed configuration acknowledgement is missing identity fields."
            ≡ returned rows' =
          rw (acknowledge_gateway_config, e) at h in
        (cc)
    | inr (i, e) ↦ found-Acknowledged i _ e refl (rw (acknowledge_gateway_config, e) at h)
  ]

module _ (payload_checksum : Json → String) (sign_payload : EnvelopeBody → String × String)
    (s : DeliverySettings) where
  pub queue-writes :
      (given locked : EdgeGateway) (r : QueueRequest) (rows rows' : List ConfigRow)
      → queue_gateway_config payload_checksum sign_payload s given locked r rows ≡ returned rows'
      → rows' ≡ record_config payload_checksum sign_payload s locked r rows
  unfolding queue_gateway_config
  queue-writes given locked r rows rows' h =
      elim (Option-cases (queue_error payload_checksum sign_payload given locked r)) [
        | inl e ↦
            let z : returned (record_config payload_checksum sign_payload s locked r rows)
                ≡ returned rows' =
              rw (queue_gateway_config, e) at h in
            (cc)
        | inr (m, e) ↦ let z : raised m ≡ returned rows' = rw (queue_gateway_config, e) at h in (cc)
      ]

-- The transactions in any order, also between the two of a dispatch. The lookups are by the key of
-- a row; what a request or a report finds and what it is refused with are in the operations.
module _ (payload_checksum : Json → String) (sign_payload : EnvelopeBody → String × String)
    (t : Thresholds) (s : DeliverySettings) where
  pub data Step (rows rows' : List ConfigRow) : Type 0 where
    queue :
        (given locked : EdgeGateway) (r : QueueRequest)
        → queue_gateway_config payload_checksum sign_payload s given locked r rows ≡ returned rows'
        → Step rows rows'
    begin :
        (pk now read_at : ℕ) (g : EdgeGateway)
        → rows'
          ≡ update_first
              (λ row. row.config.pk == pk)
              (λ row. row_of (begin_dispatch t s now read_at g row))
              rows
        → Step rows rows'
    finish :
        (pk : ℕ) (p : Publication)
        → rows' ≡ update_first (λ row. row.config.pk == pk) (finish_dispatch p) rows
        → Step rows rows'
    acknowledge :
        (now gateway : ℕ) (a : Attributes)
        → acknowledge_gateway_config s now gateway a rows ≡ returned rows'
        → Step rows rows'

  pub data Reach : List ConfigRow → Type 0 where
    nothing : Reach []
    step : {rows rows' : List ConfigRow} → Reach rows → Step rows rows' → Reach rows'

  -- The envelope of a row is the signed document of what the row says, and its checksum is that of
  -- the settings.
  pub record IsSealed (row : ConfigRow) : Type 0 where
    pub gateway : EdgeGateway
    pub owner : gateway.pk ≡ row.config.gateway_id
    pub checks : row.config.checksum ≡ payload_checksum row.config.config_json
    pub seals :
        row.config.envelope_json
        ≡ some (build_signed_config_envelope payload_checksum sign_payload gateway row.config)

  IsSealed-Kept : {old new : ConfigRow} → Kept old new → IsSealed old → IsSealed new
  unfolding build_signed_config_envelope
  IsSealed-Kept k h = record {
    gateway = h.gateway;
    owner = rw k.gateway_id h.owner;
    checks = rw (k.checksum, k.config_json) h.checks;
    seals = rw (k.body h.gateway, k.envelope_json) h.seals;
  }

  All-Kept : {old new : List ConfigRow} → Each Kept old new → All IsSealed old → All IsSealed new
  All-Kept ended h = h
  All-Kept (paired k rest) (x, h) = (IsSealed-Kept k x, All-Kept rest h)

  abbrev pub IsSound : List ConfigRow → Type 0
  IsSound rows = All IsSealed rows × IsOrdered rows

  IsSound-Kept : {old new : List ConfigRow} → Each Kept old new → IsSound old → IsSound new
  IsSound-Kept k (h, o) = (All-Kept k h, IsOrdered-Kept k o)

  supersede_open-Kept :
      (gateway : ℕ) (rows : List ConfigRow) → Each Kept rows (supersede_open gateway rows)
  unfolding supersede_open
  supersede_open-Kept gateway rows = Each-update_where Kept-refl _ _ supersede-Kept rows

  record_config-IsSound :
      (locked : EdgeGateway) (r : QueueRequest) (rows : List ConfigRow)
      → IsSound rows
      → IsSound (record_config payload_checksum sign_payload s locked r rows)
  unfolding record_config new_config build_signed_config_envelope envelope_body
  record_config-IsSound locked r rows h =
      let k = supersede_open-Kept locked.pk rows in
      let (sealed, ordered) = IsSound-Kept k h in
      (
        (record { gateway = locked; owner = refl; checks = refl; seals = refl }, sealed),
        (rw (latest-Kept locked.pk k) (omega arith), ordered),
      )

  Step-IsSound : {rows rows' : List ConfigRow} → Step rows rows' → IsSound rows → IsSound rows'
  Step-IsSound {rows} {rows'} (queue given locked r h) ok =
      rw (queue-writes payload_checksum sign_payload s given locked r rows rows' h)
        (record_config-IsSound locked r rows ok)
  Step-IsSound {rows} (begin pk now read_at g e) ok = rw e (
      IsSound-Kept (Each-update_first_of Kept-refl _ _ (begin_dispatch-Kept t s now read_at g) rows)
        ok)
  Step-IsSound {rows} (finish pk p e) ok =
      rw e (IsSound-Kept (Each-update_first_of Kept-refl _ _ (finish_dispatch-Kept p) rows) ok)
  Step-IsSound {rows} {rows'} (acknowledge now gateway a h) ok =
      let done = acknowledge-Acknowledged s now gateway a rows rows' h in
      rw done.writes (
        IsSound-Kept
          (Each-update_first_of Kept-refl _ _ (acknowledge_row-Kept s now _ done.report a) rows) ok)

  -- However the transactions of delivery follow one another, from empty tables on: every row keeps
  -- the signed document of its own identifiers, revision and settings, its checksum is that of its
  -- settings, and each row has a greater revision than every older row of the same Gateway.
  pub delivery-IsSound : {rows : List ConfigRow} → Reach rows → IsSound rows
  delivery-IsSound nothing = (tt, tt)
  delivery-IsSound (step r st) = Step-IsSound st (delivery-IsSound r)
