-- ===== src/Gateways/Delivery/Kept.antt =====
-- apps/devices/gateway_config_delivery.py: proofs on what no transaction changes of a row.
use novena_hub.Prelude.{ℕ, ◌≡◌, refl, Bool, true, false, String, if◌then◌else◌}
use novena_hub.Freshness.{Thresholds}
use novena_hub.Gateways.Types.{EdgeGateway}
use novena_hub.Gateways.Delivery.{ConfigStatus, ConfigRow, DeliverySettings}
use novena_hub.Gateways.Delivery.Queue.{supersede, envelope_body}
use novena_hub.Gateways.Delivery.Dispatch.{
  Begun, row_of, begin_dispatch, claim_or_wait, Publication, sent, failed, finish_dispatch,
  complete_outbox, mark_config_timed_out, withdraw, wait_for_gateway, claim_delivery, finish_failed,
  finish_published,
}
use novena_hub.Gateways.Delivery.Acknowledge.{
  Attributes, Report, accepted, active, rolled_back, acknowledge_row, apply_report, accept,
  conclude, note_ack, outdate,
}

-- What the identity, the document and the signed envelope of a row consist of.
pub record Kept (old new : ConfigRow) : Type 0 where
  pub gateway_id : new.config.gateway_id ≡ old.config.gateway_id
  pub revision : new.config.revision ≡ old.config.revision
  pub checksum : new.config.checksum ≡ old.config.checksum
  pub config_json : new.config.config_json ≡ old.config.config_json
  pub envelope_json : new.config.envelope_json ≡ old.config.envelope_json
  pub body : (g : EdgeGateway) → envelope_body g new.config ≡ envelope_body g old.config

abbrev same :
    {old new : ConfigRow}
    → new.config.gateway_id ≡ old.config.gateway_id
    → new.config.revision ≡ old.config.revision
    → new.config.checksum ≡ old.config.checksum
    → new.config.config_json ≡ old.config.config_json
    → new.config.envelope_json ≡ old.config.envelope_json
    → ((g : EdgeGateway) → envelope_body g new.config ≡ envelope_body g old.config)
    → Kept old new
same a b c d e f = record {
  gateway_id = a;
  revision = b;
  checksum = c;
  config_json = d;
  envelope_json = e;
  body = f;
}

pub Kept-refl : (row : ConfigRow) → Kept row row
Kept-refl row = same refl refl refl refl refl (λ g. refl)

pub supersede-Kept : (row : ConfigRow) → Kept row (supersede row)
unfolding supersede envelope_body
supersede-Kept row = same refl refl refl refl refl (λ g. refl)

complete_outbox-Kept : (row : ConfigRow) → Kept row (complete_outbox row)
unfolding complete_outbox
complete_outbox-Kept row = same refl refl refl refl refl (λ g. refl)

mark_config_timed_out-Kept :
    (now : ℕ) (m : String) (row : ConfigRow) → Kept row (mark_config_timed_out now m row)
unfolding mark_config_timed_out envelope_body
mark_config_timed_out-Kept now m row = same refl refl refl refl refl (λ g. refl)

withdraw-Kept : (row : ConfigRow) → Kept row (withdraw row)
unfolding withdraw envelope_body
withdraw-Kept row = same refl refl refl refl refl (λ g. refl)

wait_for_gateway-Kept : (now : ℕ) (row : ConfigRow) → Kept row (wait_for_gateway now row)
unfolding wait_for_gateway envelope_body
wait_for_gateway-Kept now row = same refl refl refl refl refl (λ g. refl)

claim_delivery-Kept :
    (s : DeliverySettings) (now : ℕ) (row : ConfigRow) → Kept row (claim_delivery s now row)
unfolding claim_delivery
claim_delivery-Kept s now row = same refl refl refl refl refl (λ g. refl)

if-Kept :
    (row : ConfigRow) (b : Bool) (x y : Begun)
    → Kept row (row_of x)
    → Kept row (row_of y)
    → Kept row (row_of (if b then x else y))
if-Kept row true x y h k = h
if-Kept row false x y h k = k

ruleset kept_rules = (
  if-Kept, Kept-refl, complete_outbox-Kept, mark_config_timed_out-Kept, withdraw-Kept,
  wait_for_gateway-Kept, claim_delivery-Kept,
)

claim_or_wait-Kept :
    (t : Thresholds) (s : DeliverySettings) (now read_at : ℕ) (g : EdgeGateway) (row : ConfigRow)
    → Kept row (row_of (claim_or_wait t s now read_at g row))
unfolding claim_or_wait
claim_or_wait-Kept t s now read_at g row = search kept_rules

pub begin_dispatch-Kept :
    (t : Thresholds) (s : DeliverySettings) (now read_at : ℕ) (g : EdgeGateway) (row : ConfigRow)
    → Kept row (row_of (begin_dispatch t s now read_at g row))
unfolding begin_dispatch
begin_dispatch-Kept t s now read_at g row = search (kept_rules, claim_or_wait-Kept)

pub finish_dispatch-Kept : (p : Publication) (row : ConfigRow) → Kept row (finish_dispatch p row)
unfolding finish_dispatch finish_failed finish_published envelope_body
finish_dispatch-Kept (sent now) row = same refl refl refl refl refl (λ g. refl)
finish_dispatch-Kept (failed now error) row = same refl refl refl refl refl (λ g. refl)

accept-Kept : (s : DeliverySettings) (now : ℕ) (row : ConfigRow) → Kept row (accept s now row)
unfolding accept envelope_body
accept-Kept s now row = same refl refl refl refl refl (λ g. refl)

conclude-Kept :
    (now : ℕ) (status : ConfigStatus) (a : Attributes) (row : ConfigRow)
    → Kept row (conclude now status a row)
unfolding conclude envelope_body
conclude-Kept now status a row = same refl refl refl refl refl (λ g. refl)

either-Kept :
    (row : ConfigRow) (b : Bool) (x y : ConfigRow)
    → Kept row x
    → Kept row y
    → Kept row (if b then x else y)
either-Kept row true x y h k = h
either-Kept row false x y h k = k

note_ack-Kept : (now : ℕ) (row : ConfigRow) → Kept row (note_ack now row)
unfolding note_ack envelope_body
note_ack-Kept now row = same refl refl refl refl refl (λ g. refl)

outdate-Kept : (now : ℕ) (row : ConfigRow) → Kept row (outdate now row)
unfolding outdate envelope_body
outdate-Kept now row = same refl refl refl refl refl (λ g. refl)

apply_report-Kept :
    (s : DeliverySettings) (now : ℕ) (r : Report) (a : Attributes) (row : ConfigRow)
    → Kept row (apply_report s now r a row)
unfolding apply_report
apply_report-Kept s now accepted a row = search (either-Kept, note_ack-Kept, accept-Kept)
apply_report-Kept s now active a row = conclude-Kept now _ a row
apply_report-Kept s now Report.failed a row = conclude-Kept now _ a row
apply_report-Kept s now rolled_back a row = conclude-Kept now _ a row

pub acknowledge_row-Kept :
    (s : DeliverySettings) (now latest : ℕ) (r : Report) (a : Attributes) (row : ConfigRow)
    → Kept row (acknowledge_row s now latest r a row)
unfolding acknowledge_row
acknowledge_row-Kept s now latest r a row = search (either-Kept, apply_report-Kept, outdate-Kept)
