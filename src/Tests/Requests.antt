-- ===== src/Tests/Requests.antt =====
-- Runs of the request of a command.
use novena_hub.Prelude.{◌≡◌, refl, false, none, some, [], ◌∷◌}
use novena_hub.Json.{Json}
use novena_hub.Teams.Roles.{has_permission}
use novena_hub.RemoteControl.Types.{Source, CommandRow}
use novena_hub.RemoteControl.Catalog.{CommandDefinition, catalog_get}
use novena_hub.RemoteControl.Protocol.{state_change_capability_error}
use novena_hub.RemoteControl.Request.{
  Resolution, resolved, Asked, recorded, policy_denial, shape_error, user_has_permission,
}
use novena_hub.RemoteControl.Request.Record.{resolve_target, create_command, log_request, route}
use novena_hub.RemoteControl.Request.Submit.{record_request, request_remote_command}
use novena_hub.RemoteControl.Request.Recorded.{IsRecorded}
use novena_hub.RemoteControl.Request.Laws.{request_recorded}
use novena_hub.Tests.Fixtures.{
  write_definition, tag, bind, admin, members, plant, edge, pump, write, queued_row,
}

abbrev asked_write : Asked
asked_write = record {
  operation = "write_device";
  requested_by = some admin;
  params = write.params;
  device = some pump;
  command_key = "setpoint";
  value = Json.int 40;
  normalized = Json.int 40;
  reason = "test";
  source = Source.user;
  ttl_seconds = 60;
}

abbrev resolution : Resolution
resolution = record {
  params = write.params;
  normalized = Json.int 40;
  template_revision = 1;
  commissioning_revision = 1;
  policy_revision = 2;
  policy_checksum = "c2";
  approval_required = false;
}

-- The row that the request leaves.
abbrev requested_row : CommandRow
requested_row = route tag bind 51 0 none none false (
    log_request tag bind asked_write resolution none (
      create_command tag bind 50 0 (queued_row ∷ []) write_definition plant edge asked_write
        resolution none))

request_run :
    request_remote_command tag bind 50 51 0 none members
      (queued_row ∷ [])
      plant
      edge
      (resolved resolution)
      asked_write
    ≡ recorded requested_row none
unfolding request_remote_command catalog_get shape_error record_request resolve_target policy_denial
    user_has_permission has_permission state_change_capability_error
request_run = refl

request_recorded_example :
    (definition : CommandDefinition) × (catalog_get "write_device" ≡ some definition)
    × (shape_error definition edge asked_write ≡ none)
    × IsRecorded tag 0 members
        (queued_row ∷ [])
        definition
        plant
        edge
        asked_write
        requested_row
        none
request_recorded_example =
    request_recorded tag bind 50 51 0 none members (queued_row ∷ []) plant edge
      (resolved resolution) asked_write requested_row none request_run
