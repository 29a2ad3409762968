-- ===== src/Gateways/Delivery/Dispatch.antt =====
-- apps/devices/gateway_config_delivery.py: `dispatch_gateway_config_outbox`.
use novena_hub.Prelude.{
  ℕ, ◌+◌, ◌^◌, min, max, Bool, true, false, not, ◌&&◌, ◌||◌, String, Option, none, some, ltb, leb,
  seconds, if◌then◌else◌,
}
use novena_hub.Freshness.{Thresholds, is_live, gateway_freshness_state}
use novena_hub.Gateways.Types.{EdgeGateway, gateway_is_quarantined}
use novena_hub.Gateways.Delivery.{
  ConfigStatus, is_settled, DeliveryStatus, ConfigOutbox, ConfigRow, DeliverySettings,
}

-- `x and x <= now`
abbrev pub is_past : Option ℕ → ℕ → Bool
is_past none now = false
is_past (some t) now = leb t now

-- `_mark_config_timed_out`
unfoldable pub mark_config_timed_out : ℕ → String → ConfigRow → ConfigRow
mark_config_timed_out now message row = record row {
  outbox = record row.outbox {
    status = DeliveryStatus.dead_letter;
    dead_lettered_at = some now;
    lease_expires_at = none;
    last_error = message;
  };
  config = record row.config {
    status = ConfigStatus.timed_out;
    error_code = "gateway_ack_timeout";
    error_message = message;
  };
}

-- A configuration that is settled has nothing left to send.
unfoldable pub complete_outbox : ConfigRow → ConfigRow
complete_outbox row = record row {
  outbox = record row.outbox { status = DeliveryStatus.completed; lease_expires_at = none };
}

-- `claimable`
unfoldable pub is_claimable : ℕ → ConfigOutbox → Bool
is_claimable now o = elim o.status [
  | DeliveryStatus.pending ↦ true
  | DeliveryStatus.retry ↦ true
  | DeliveryStatus.waiting_gateway ↦ true
  | DeliveryStatus.awaiting_ack ↦ true
  | DeliveryStatus.claimed ↦ is_past o.lease_expires_at now
  | _ ↦ false
]

unfoldable pub withdraw : ConfigRow → ConfigRow
withdraw row = record row {
  config = record row.config {
    status = ConfigStatus.superseded;
    error_code = "gateway_released";
    error_message = "The Gateway is being released.";
  };
  outbox = record row.outbox { status = DeliveryStatus.completed };
}

unfoldable pub wait_for_gateway : ℕ → ConfigRow → ConfigRow
wait_for_gateway now row = record row {
  outbox = record row.outbox {
    status = DeliveryStatus.waiting_gateway;
    next_attempt_at = now + seconds 30;
    lease_expires_at = none;
  };
  config = record row.config {
    status = ConfigStatus.waiting_for_gateway;
    error_code = "gateway_offline";
    error_message = "Waiting for the Gateway to come online.";
  };
}

unfoldable pub claim_delivery : DeliverySettings → ℕ → ConfigRow → ConfigRow
claim_delivery s now row = record row {
  outbox = record row.outbox {
    status = DeliveryStatus.claimed;
    claimed_at = some now;
    lease_expires_at = some (now + seconds s.lease_seconds);
    attempt_count = row.outbox.attempt_count + 1;
  };
}

-- How the first transaction ends: the call returns, or it goes on to publish the envelope.
pub data Begun : Type 0 where
  settled : ConfigRow → Begun
  publishing : ConfigRow → Begun

abbrev pub row_of : Begun → ConfigRow
row_of (settled row) = row
row_of (publishing row) = row

abbrev is_accepted : ConfigStatus → Bool
is_accepted ConfigStatus.accepted = true
is_accepted _ = false

-- The part below the checks on the configuration; freshness reads the clock again.
unfoldable pub claim_or_wait :
    Thresholds → DeliverySettings → ℕ → ℕ → EdgeGateway → ConfigRow → Begun
unfolding is_claimable gateway_is_quarantined withdraw gateway_freshness_state wait_for_gateway
    claim_delivery
claim_or_wait t s now read_at g row =
    if not (is_claimable now row.outbox) || ltb now row.outbox.next_attempt_at
    then settled row
    else if gateway_is_quarantined g
    then settled (withdraw row)
    else if is_live (gateway_freshness_state t read_at g).status
    then publishing (claim_delivery s now row)
    else settled (wait_for_gateway now row)

-- The first transaction of `dispatch_gateway_config_outbox`; what reads the clock again has `read_at`.
unfoldable pub begin_dispatch :
    Thresholds → DeliverySettings → ℕ → ℕ → EdgeGateway → ConfigRow → Begun
unfolding is_settled complete_outbox mark_config_timed_out claim_or_wait
begin_dispatch t s now read_at g row =
    if is_settled row.config.status
    then settled (complete_outbox row)
    else if is_past row.config.expires_at now
    then settled (
        mark_config_timed_out read_at "The Gateway did not apply these settings within 24 hours."
          row)
    else if is_accepted row.config.status
    then (if is_past row.config.acknowledgement_deadline_at now
        then settled (
            mark_config_timed_out read_at
              "The Gateway accepted these settings but did not finish applying them." row)
        else settled row)
    else claim_or_wait t s now read_at g row

-- `min(300, max(floor, 2 ** min(attempt_count, 8)))`, in seconds.
unfoldable pub delivery_backoff : ℕ → ℕ → ℕ
delivery_backoff floor attempts = min 300 (max floor (2 ^ min attempts 8))

-- The transaction after a failed publication.
unfoldable pub finish_failed : ℕ → String → ConfigRow → ConfigRow
unfolding delivery_backoff
finish_failed now error row = record row {
  outbox = record row.outbox {
    status = DeliveryStatus.retry;
    next_attempt_at = now + seconds (delivery_backoff 5 row.outbox.attempt_count);
    lease_expires_at = none;
    last_error = error;
  };
  config = record row.config {
    error_code = "broker_publish_failed";
    error_message = "Novena could not send the settings yet. It will retry automatically.";
  };
}

-- `x or now`
abbrev first_time : Option ℕ → ℕ → Option ℕ
first_time none now = some now
first_time (some t) now = some t

-- The transaction after a publication.
unfoldable pub finish_published : ℕ → ConfigRow → ConfigRow
unfolding delivery_backoff
finish_published now row = record row {
  outbox = record row.outbox {
    status = DeliveryStatus.awaiting_ack;
    delivered_at = some now;
    next_attempt_at = now + seconds (delivery_backoff 15 row.outbox.attempt_count);
    lease_expires_at = none;
    last_error = "";
  };
  config = record row.config {
    status = ConfigStatus.published;
    published_at = first_time row.config.published_at now;
    delivered_at = first_time row.config.delivered_at now;
    error_code = "";
    error_message = "";
  };
}

-- How the publication of an envelope by the broker client ended, and when that was recorded.
pub data Publication : Type 0 where
  sent : ℕ → Publication
  failed : ℕ → String → Publication

-- The second transaction.
unfoldable pub finish_dispatch : Publication → ConfigRow → ConfigRow
unfolding finish_failed finish_published
finish_dispatch (sent now) row = finish_published now row
finish_dispatch (failed now error) row = finish_failed now error row

abbrev finish : Publication → Begun → ConfigRow
finish p (settled row) = row
finish p (publishing row) = finish_dispatch p row

-- `dispatch_gateway_config_outbox`, when nothing else writes the row while it publishes.
unfoldable pub dispatch_gateway_config_outbox :
    Thresholds → DeliverySettings → ℕ → ℕ → Publication → EdgeGateway → ConfigRow → ConfigRow
unfolding begin_dispatch finish_dispatch
dispatch_gateway_config_outbox t s now read_at p g row =
    finish p (begin_dispatch t s now read_at g row)

abbrev is_due_status : DeliveryStatus → Bool
is_due_status DeliveryStatus.completed = false
is_due_status DeliveryStatus.dead_letter = false
is_due_status _ = true

abbrev pub is_free : Option ℕ → ℕ → Bool
is_free none now = true
is_free (some t) now = leb t now

-- Whether the query of `dispatch_due_gateway_config_outboxes` finds an outbox.
unfoldable pub is_listed : ℕ → ConfigOutbox → Bool
is_listed now o =
    is_due_status o.status && (leb o.next_attempt_at now && is_free o.lease_expires_at now)
