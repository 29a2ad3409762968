-- ===== src/Gateways/Release.antt =====
-- apps/devices/gateway_release.py and the tables it keeps, of apps/devices/models.py.
pub mod Finalize
pub mod Dispatch
pub mod Confirmed
pub mod Emptied
use novena_hub.Prelude.{
  ℕ, ◌^◌, ◌+◌, min, max, Bool, true, false, not, ◌&&◌, ◌||◌, String, Option, none, some, List, [],
  ◌∷◌, leb, ltb, str_eq, seconds, any, find?, update_first, if◌then◌else◌, ◌==◌, is_some,
}
use novena_hub.RemoteControl.Types.{CommandRow}
use novena_hub.Gateways.Types.{EdgeGateway, Outcome, returned, raised}
use novena_hub.Gateways.Delivery.{ConfigRow}

-- `GatewayReleaseRequest.Status`
pub data ReleaseStatus : Type 0 where
  queued revoking retry needs_attention completed : ReleaseStatus

-- `GatewayReleaseRequest`
pub record ReleaseRequest : Type 0 where
  pub pk : ℕ
  pub request_id : String
  pub requested_by : Option ℕ
  pub status : ReleaseStatus
  pub attempt_count : ℕ
  pub next_attempt_at : ℕ
  pub claimed_at : Option ℕ
  pub lease_expires_at : Option ℕ
  pub last_error : String
  pub edge_reset_at : Option ℕ
  pub completed_at : Option ℕ

-- `GatewayActivation.STATUS_CHOICES`
pub data GatewayActivationStatus : Type 0 where
  provisioning pending delivered acknowledged expired retried retry failed superseded :
      GatewayActivationStatus

-- `GatewayActivation`: the columns that a release writes.
pub record GatewayActivation : Type 0 where
  pub status : GatewayActivationStatus
  pub last_error : String
  pub encrypted_mqtt_password : String

-- `GatewayInventory`
pub record Inventory : Type 0 where
  pub serial_number : String
  pub status : String
  pub gateway : Option ℕ
  pub claimed_by_team : Option ℕ
  pub claimed_at : Option ℕ

-- A Gateway with the rows that refer to it; of its logs, RPC commands and devices the keys.
pub record Ownership : Type 0 where
  pub gateway : EdgeGateway
  pub created_at : ℕ
  pub releases : List ReleaseRequest
  pub commands : List CommandRow
  pub activations : List GatewayActivation
  pub configs : List ConfigRow
  pub logs : List ℕ
  pub rpc_commands : List ℕ
  pub devices : List ℕ
  pub inventory : List Inventory

unfoldable pub is_completed_release : ReleaseStatus → Bool
is_completed_release ReleaseStatus.completed = true
is_completed_release _ = false

-- The fresh values of a request: the key and the identifier of the row, and the clock.
pub record ReleaseOrder : Type 0 where
  pub fresh_pk : ℕ
  pub fresh_request_id : String
  pub requested_by : Option ℕ
  pub now : ℕ

unfoldable pub new_release : ReleaseOrder → ReleaseRequest
new_release o = record {
  pk = o.fresh_pk;
  request_id = o.fresh_request_id;
  requested_by = o.requested_by;
  status = ReleaseStatus.queued;
  attempt_count = 0;
  next_attempt_at = o.now;
  claimed_at = none;
  lease_expires_at = none;
  last_error = "";
  edge_reset_at = none;
  completed_at = none;
}

unfoldable pub begin_release : ReleaseOrder → Ownership → Ownership
unfolding new_release
begin_release o s = record s {
  gateway = record s.gateway {
    lifecycle_status = "release_pending";
    status = "offline";
    mqtt_connected = some false;
  };
  releases = new_release o ∷ s.releases;
}

-- `request_gateway_release`: a release that is under way is returned as it is.
unfoldable pub request_gateway_release : ReleaseOrder → Ownership → Outcome Ownership
unfolding is_completed_release begin_release
request_gateway_release o s =
    if any (λ r. not (is_completed_release r.status)) s.releases
    then returned s
    else if str_eq s.gateway.lifecycle_status "released"
    then raised "This Gateway has already been released."
    else returned (begin_release o s)

-- `min(limit, max(5, 2 ** min(attempt_count, 8)))`, in seconds.
unfoldable pub release_backoff : ℕ → ℕ → ℕ
release_backoff limit attempts = min limit (max 5 (2 ^ min attempts 8))

-- `_retry_release`, with `GATEWAY_RELEASE_RETRY_MAX_SECONDS`.
unfoldable pub retry_release : ℕ → ℕ → String → ReleaseRequest → ReleaseRequest
unfolding release_backoff
retry_release limit now error r = record r {
  status = if leb 3 r.attempt_count then ReleaseStatus.needs_attention else ReleaseStatus.retry;
  next_attempt_at = now + seconds (release_backoff limit r.attempt_count);
  lease_expires_at = none;
  last_error = error;
}

-- The attributes that a reset receipt carries; a key that is absent is `none`.
pub record Receipt : Type 0 where
  pub gateway_release_status : Option String
  pub gateway_release_request_id : Option String
  pub gateway_release_claim_id : Option String

abbrev is_text : Option String → String → Bool
is_text none s = false
is_text (some t) s = str_eq t s

-- The query of the release that a receipt names.
abbrev pub is_named : Receipt → ReleaseRequest → Bool
is_named receipt r =
    is_text receipt.gateway_release_request_id r.request_id && not (is_completed_release r.status)

-- The writes, when the reset had not been confirmed before.
unfoldable pub confirm_reset : ℕ → ReleaseRequest → ReleaseRequest
confirm_reset now r = if is_some r.edge_reset_at then r else record r {
  edge_reset_at = some now;
  status = ReleaseStatus.retry;
  next_attempt_at = now;
  lease_expires_at = none;
  last_error = "";
}

-- `acknowledge_gateway_release`: the rows after it. The identity of a claim is a text made from the
-- key of the Gateway and the time of its creation.
unfoldable pub acknowledge_gateway_release : (ℕ → ℕ → String) → ℕ → Receipt → Ownership → Ownership
unfolding confirm_reset is_completed_release
acknowledge_gateway_release gateway_claim_id now receipt s =
    if is_text receipt.gateway_release_status "reset_complete"
      && (any (is_named receipt) s.releases
          && (str_eq s.gateway.lifecycle_status "release_pending"
              && is_text receipt.gateway_release_claim_id
                  (gateway_claim_id s.gateway.pk s.created_at)))
    then record s { releases = update_first (is_named receipt) (confirm_reset now) s.releases }
    else s
