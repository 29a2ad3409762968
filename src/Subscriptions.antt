-- ===== src/Subscriptions.antt =====
-- apps/subscriptions/enforcement.py: what the plan of a team allows. The metadata of a product
-- (apps/subscriptions/metadata.py) is read through Stripe's models, which are not modelled: what
-- the query of the items yields is a column of the team.

pub mod Pace
use novena_hub.Prelude.{
  ℕ, max, Bool, true, false, not, ◌||◌, Option, none, some, List, [], ◌∷◌, if◌then◌else◌, ltb, leb,
}
use novena_hub.Json.{Json, Fields, get, truthy}
use novena_hub.Envelope.Int.{ℤ, pos, negsuc}

-- `ProductMetadata`, the fields that limit a team. The interval is a float, counted in thousandths.
pub record ProductMetadata : Type 0 where
  pub gateway_limit : ℤ
  pub device_limit : ℤ
  pub retention_days : ℤ
  pub telemetry_interval_seconds : ℤ

-- What the limits read of a team. `items` holds the metadata of the products of its subscription;
-- `none` when the query or the metadata raise an error.
pub record SubscribedTeam : Type 0 where
  pub subscription : Bool
  pub has_active_subscription : Bool
  pub items : Option (List ProductMetadata)

first_item : Option (List ProductMetadata) → Option ProductMetadata
first_item none = none
first_item (some []) = none
first_item (some (p ∷ rest)) = some p

-- `get_product_metadata_for_team`
unfoldable pub get_product_metadata_for_team : SubscribedTeam → Option ProductMetadata
unfolding first_item
get_product_metadata_for_team team =
    if not team.subscription || not team.has_active_subscription
    then none
    else first_item team.items

-- `get_device_limit_for_team`
unfoldable pub get_device_limit_for_team : SubscribedTeam → ℤ
get_device_limit_for_team team = elim (get_product_metadata_for_team team) [
  | none ↦ pos 3
  | some m ↦ m.device_limit
]

-- `get_gateway_limit_for_team`
unfoldable pub get_gateway_limit_for_team : SubscribedTeam → ℤ
get_gateway_limit_for_team team = elim (get_product_metadata_for_team team) [
  | none ↦ pos 1
  | some m ↦ m.gateway_limit
]

-- Whether a count is below a limit.
unfoldable pub below : ℕ → ℤ → Bool
below n (pos k) = ltb n k
below n (negsuc k) = false

-- `limit == -1`
unfoldable pub is_unlimited : ℤ → Bool
is_unlimited (pos k) = false
is_unlimited (negsuc k) = leb k 0

-- `limit >= 9999`
unfoldable pub is_unbounded : ℤ → Bool
is_unbounded (pos k) = leb 9999 k
is_unbounded (negsuc k) = false

-- `can_add_device`, where the team has `n` devices.
unfoldable pub can_add_device : SubscribedTeam → ℕ → Bool
can_add_device team n =
    let limit = get_device_limit_for_team team in if is_unlimited limit then true else below n limit

-- `can_add_gateway`, where the team has `n` gateways that are not released.
unfoldable pub can_add_gateway : SubscribedTeam → ℕ → Bool
can_add_gateway team n =
    let limit = get_gateway_limit_for_team team in
    if is_unlimited limit || is_unbounded limit then true else below n limit

-- `get_latency_limit_for_team`, in thousandths of a second.
unfoldable pub get_latency_limit_for_team : SubscribedTeam → ℤ
get_latency_limit_for_team team = elim (get_product_metadata_for_team team) [
  | none ↦ pos 10000
  | some m ↦ m.telemetry_interval_seconds
]

-- A number as it counts in a maximum with a positive one.
unfoldable pub clamped : ℤ → ℕ
clamped (pos n) = n
clamped (negsuc n) = 0

-- `float(template_interval or 5)`; a device without a template has no interval.
unfoldable pub template_interval : Option ℤ → ℕ
template_interval none = 5000
template_interval (some (pos n)) = if leb n 0 then 5000 else n
template_interval (some (negsuc n)) = 0

module _ (to_float : Json → Option ℤ) where
  -- `float(requested_interval or template_interval)`, or the template's if it is not a number.
  unfoldable pub requested_interval : Json → ℕ → ℕ
  requested_interval requested template =
      if truthy requested
      then elim (to_float requested) [ none ↦ template | some x ↦ clamped x ]
      else template

  -- `get_effective_polling_interval_seconds`, in thousandths.
  unfoldable pub get_effective_polling_interval_seconds : SubscribedTeam → Option ℤ → Fields → ℕ
  get_effective_polling_interval_seconds team template config = max 1000 (
      max
        (requested_interval (get config "requested_polling_interval") (template_interval template))
        (clamped (get_latency_limit_for_team team)))
