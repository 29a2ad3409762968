-- ===== src/Gateways/Delivery/Validate.antt =====
-- apps/devices/gateway_config_delivery.py: what a Gateway can be sent.
use novena_hub.Prelude.{
  Bool, true, false, not, ◌&&◌, ◌||◌, String, Option, none, some, [], ◌∷◌, str_eq, contains,
  if◌then◌else◌,
}
use novena_hub.Json.{
  Json, null, Fields, Items, nil, cons, get, has_key, truthy, as_object, as_list, converts_to_int,
}
use novena_hub.Gateways.Types.{EdgeGateway, gateway_is_quarantined}

-- `gateway_supports_guided_setup`
unfoldable pub gateway_supports_guided_setup : EdgeGateway → Bool
gateway_supports_guided_setup g =
    g.remote_control_clock_ready && contains g.gateway_capabilities "guided_setup_v1"

-- `ensure_gateway_configurable`: the text of the exception.
unfoldable pub ensure_gateway_configurable : EdgeGateway → Option String
unfolding gateway_supports_guided_setup gateway_is_quarantined
ensure_gateway_configurable g =
    if gateway_is_quarantined g
    then some "This Gateway is being released and cannot receive settings."
    else if gateway_supports_guided_setup g
    then none
    else if not g.remote_control_clock_ready
    then some
        "The Gateway clock is still synchronizing. Wait for it to become ready before sending settings."
    else some
        "Update this Gateway before sending settings. Its current software does not support secure Guided Setup."

-- `SUPPORTED_CONFIG_ACTIONS`
abbrev is_supported : String → Bool
is_supported =
    contains ("full_update" ∷ "connector_update" ∷ "connector_add" ∷ "connector_remove" ∷ [])

abbrev is_text : Json → String → Bool
is_text (Json.text t) s = str_eq t s
is_text _ s = false

abbrev is_null : Json → Bool
is_null null = true
is_null _ = false

-- `not isinstance(gateway_section, dict) or gateway_section.get("serial_number") != ...`
abbrev names_gateway : EdgeGateway → Option Fields → Bool
names_gateway g none = false
names_gateway g (some section) = is_text (get section "serial_number") g.serial_number

-- The checks of the section on the broker.
unfoldable pub broker_error : Option Fields → Option String
unfolding get truthy converts_to_int
broker_error none = some "Full settings must include the MQTT host and port."
broker_error (some section) =
    if not (truthy (get section "host")) || is_null (get section "port")
    then some "Full settings must include the MQTT host and port."
    else if converts_to_int (get section "port")
    then none
    else some "The MQTT port must be an integer."

-- The first error, if there is one.
infixr 20 ◌or_else◌
abbrev pub ◌or_else◌ : Option String → Option String → Option String
none or_else e = e
(some e) or_else f = some e

-- `if action == "full_update"`
unfoldable pub full_update_error : EdgeGateway → Fields → Option String
unfolding get as_object broker_error
full_update_error g config =
    if not (names_gateway g (as_object (get config "gateway")))
    then some "Full settings must target this Gateway serial number."
    else broker_error (as_object (get config "mqtt"))
      or_else (if has_key config "connectors"
          then none
          else some "Full settings must include a connector list.")

abbrev has_type : Option Fields → Bool
has_type none = false
has_type (some connector) = truthy (get connector "type")

-- Whether every connector is an object with a type.
unfoldable pub are_typed : Items → Bool
unfolding as_object get truthy
are_typed nil = true
are_typed (cons connector rest) = has_type (as_object connector) && are_typed rest

abbrev connector_list_error : Option Items → Option String
connector_list_error none = some "Connectors must be a list of objects with a connector type."
connector_list_error (some items) =
    if are_typed items
    then none
    else some "Connectors must be a list of objects with a connector type."

-- The checks on the connectors of an update.
unfoldable pub connectors_error : String → Fields → Option String
unfolding get as_list are_typed truthy
connectors_error action config =
    if (str_eq action "full_update" || str_eq action "connector_update")
      && has_key config "connectors"
    then connector_list_error (as_list (get config "connectors"))
    else if str_eq action "connector_update" && not (truthy (get config "name"))
    then some "Connector updates must include a connector list or connector name."
    else none

-- The checks on one connector that is added or removed.
unfoldable pub connector_error : String → Fields → Option String
unfolding get truthy
connector_error action config =
    if str_eq action "connector_add"
      && (not (truthy (get config "name")) || not (truthy (get config "type")))
    then some "A connector name and type are required."
    else if str_eq action "connector_remove" && not (truthy (get config "name"))
    then some "Choose the connector to remove."
    else none

abbrev fields_error : EdgeGateway → String → Fields → Option String
fields_error g action config =
    (if str_eq action "full_update" then full_update_error g config else none)
    or_else connectors_error action config
    or_else connector_error action config

abbrev object_error : EdgeGateway → String → Option Fields → Option String
object_error g action none = some "Settings must be a non-empty object."
object_error g action (some Fields.end) = some "Settings must be a non-empty object."
object_error g action (some config) = fields_error g action config

-- `validate_gateway_config_payload`: the text of the exception.
unfoldable pub validate_gateway_config_payload : EdgeGateway → String → Json → Option String
unfolding full_update_error connectors_error connector_error as_object
validate_gateway_config_payload g action config =
    if is_supported action
    then object_error g action (as_object config)
    else some "Choose a supported settings action."
