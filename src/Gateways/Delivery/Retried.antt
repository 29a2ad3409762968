-- ===== src/Gateways/Delivery/Retried.antt =====
-- apps/devices/gateway_config_delivery.py: proofs on when a configuration is sent, and sent again.
use novena_hub.Prelude.{
  ℕ, ◌+◌, ◌≤◌, ◌≡◌, refl, Bool, true, false, not, ◌||◌, leb, arith, seconds, le→leb, subst, sym,
  if◌then◌else◌,
}
use novena_hub.Freshness.{Thresholds, is_live, gateway_freshness_state}
use novena_hub.Gateways.Types.{EdgeGateway, gateway_is_quarantined}
use novena_hub.Gateways.Delivery.{is_settled, ConfigOutbox, ConfigRow, DeliverySettings}
use novena_hub.Gateways.Delivery.Dispatch.{
  is_past, is_claimable, claim_delivery, Begun, settled, publishing, begin_dispatch, claim_or_wait,
  delivery_backoff, Publication, sent, failed, finish_dispatch, finish_published, finish_failed,
  is_listed,
}

-- What holds when the first transaction goes on to publish.
pub record Publishes (t : Thresholds) (s : DeliverySettings) (now read_at : ℕ) (g : EdgeGateway)
    (row row' : ConfigRow) : Type 0 where
  pub unsettled : is_settled row.config.status ≡ false
  pub unexpired : is_past row.config.expires_at now ≡ false
  pub claimable : is_claimable now row.outbox ≡ true
  pub due : row.outbox.next_attempt_at ≤ now
  pub kept : gateway_is_quarantined g ≡ false
  pub live : is_live (gateway_freshness_state t read_at g).status ≡ true
  pub claims : row' ≡ claim_delivery s now row

passes :
    (b : Bool) (x row' : ConfigRow) (rest : Begun)
    → (if b then settled x else rest) ≡ publishing row'
    → (b ≡ false) × (rest ≡ publishing row')
passes true x row' rest h = cc
passes false x row' rest h = (refl, h)

passes_both :
    (b c : Bool) (x y row' : ConfigRow) (rest : Begun)
    → (if b then (if c then settled x else settled y) else rest) ≡ publishing row'
    → (b ≡ false) × (rest ≡ publishing row')
passes_both true true x y row' rest h = cc
passes_both true false x y row' rest h = cc
passes_both false c x y row' rest h = (refl, h)

claims_when :
    (b : Bool) (x y row' : ConfigRow)
    → (if b then publishing x else settled y) ≡ publishing row'
    → (b ≡ true) × (row' ≡ x)
claims_when true x y row' h = (refl, cc)
claims_when false x y row' h = cc

both-false : (a b : Bool) → (not a || b) ≡ false → (a ≡ true) × (b ≡ false)
both-false a b h = ground arith

module _ (t : Thresholds) (s : DeliverySettings) (now read_at : ℕ) (g : EdgeGateway)
    (row row' : ConfigRow) where
  -- `begin_dispatch` publishes only a row that is not settled, has not expired, can be claimed and is
  -- due, for a Gateway that is not being released and is live.
  pub begin_dispatch-Publishes :
      begin_dispatch t s now read_at g row ≡ publishing row' → Publishes t s now read_at g row row'
  unfolding begin_dispatch claim_or_wait
  begin_dispatch-Publishes h =
      let (unsettled, h1) = passes _ _ row' _ h in
      let (unexpired, h2) = passes _ _ row' _ h1 in
      let (pending, h3) = passes_both _ _ _ _ row' _ h2 in
      let (ready, h4) = passes _ _ row' _ h3 in
      let (kept, h5) = passes _ _ row' _ h4 in
      let (live, same) = claims_when _ _ _ row' h5 in
      let (claimable, due) = both-false _ _ ready in
      record {
        unsettled = unsettled;
        unexpired = unexpired;
        claimable = claimable;
        due = ground arith;
        kept = kept;
        live = live;
        claims = same;
      }

backoff_bounded : (floor attempts : ℕ) → delivery_backoff floor attempts ≤ 300
unfolding delivery_backoff
backoff_bounded floor attempts = omega arith

-- When the second transaction is recorded.
abbrev pub recorded_at : Publication → ℕ
recorded_at (sent now) = now
recorded_at (failed now error) = now

soon :
    (now wait later : ℕ)
    → wait ≤ 300
    → now + seconds 300 ≤ later
    → leb (now + seconds wait) later ≡ true
soon now wait later h k = le→leb _ _ (omega arith)

-- The sweep of the due outboxes finds the outbox, and a dispatch of it can claim it.
abbrev pub IsRetried : ℕ → ConfigOutbox → Type 0
IsRetried later outbox = (is_listed later outbox ≡ true) × (is_claimable later outbox ≡ true)

finish-IsRetried :
    (p : Publication) (later : ℕ) (row : ConfigRow)
    → recorded_at p + seconds 300 ≤ later
    → IsRetried later (finish_dispatch p row).outbox
unfolding is_listed is_claimable finish_dispatch finish_published finish_failed
finish-IsRetried (sent now) later row h =
    (rw (soon now _ later (backoff_bounded 15 row.outbox.attempt_count) h) refl, refl)
finish-IsRetried (failed now error) later row h =
    (rw (soon now _ later (backoff_bounded 5 row.outbox.attempt_count) h) refl, refl)

claim-IsRetried :
    (s : DeliverySettings) (now later : ℕ) (row : ConfigRow)
    → row.outbox.next_attempt_at ≤ now
    → now + seconds s.lease_seconds ≤ later
    → IsRetried later (claim_delivery s now row).outbox
unfolding is_listed is_claimable claim_delivery
claim-IsRetried s now later row h k =
    let due : leb row.outbox.next_attempt_at later ≡ true = le→leb _ _ (omega arith) in
    (rw (due, le→leb _ _ k) refl, le→leb _ _ k)

-- Once `begin_dispatch` goes on to publish, the delivery is not lost: whether the worker stops there
-- (the lease of the row then runs out), or the publication succeeds or fails and is recorded, then from
-- the end of the lease and five minutes after the record on, the sweep finds the outbox again and a
-- dispatch can claim it.
pub begin_dispatch-IsRetried :
    (t : Thresholds) (s : DeliverySettings) (now read_at : ℕ) (g : EdgeGateway)
    (row row' : ConfigRow) (p : Publication) (later : ℕ)
    → begin_dispatch t s now read_at g row ≡ publishing row'
    → now + seconds s.lease_seconds ≤ later
    → recorded_at p + seconds 300 ≤ later
    → IsRetried later row'.outbox × IsRetried later (finish_dispatch p row').outbox
begin_dispatch-IsRetried t s now read_at g row row' p later h lease recorded =
    let done = begin_dispatch-Publishes t s now read_at g row row' h in
    (
      subst (λ r. IsRetried later r.outbox) (sym done.claims)
          (claim-IsRetried s now later row done.due lease),
      finish-IsRetried p later row' recorded,
    )
