-- ===== src/RemoteControl/Request/Submit.antt =====
-- apps/devices/remote_control.py: the whole of `request_remote_command`.
use Prim.Native.String.{◌++◌}
use novena_hub.Prelude.{ℕ, Option, none, some, List}
use novena_hub.Json.{Json}
use novena_hub.Teams.Types.{Team, Membership}
use novena_hub.RemoteControl.Types.{CommandRow, EventPayload, Gateway, Denial}
use novena_hub.RemoteControl.Catalog.{CommandDefinition, catalog_get}
use novena_hub.Readiness.Approve.{Binding}
use novena_hub.RemoteControl.Request.{
  Resolution, Resolved, Asked, Answer, raised, recorded, policy_denial, shape_error,
}
use novena_hub.RemoteControl.Request.Record.{resolve_target, create_command, log_request, route}

module _ (digest : EventPayload → ℕ) (checksum : Binding → ℕ) where
  unfoldable pub record_request :
      ℕ
      → ℕ
      → ℕ
      → Option Json
      → List CommandRow
      → CommandDefinition
      → Team
      → Gateway
      → Asked
      → Resolution × Option Denial
      → Answer
  record_request pk approval_pk now current rows definition team gateway asked (r, denial) =
      recorded
        (route digest checksum approval_pk now current denial r.approval_required (
          log_request digest checksum asked r denial
            (create_command digest checksum pk now rows definition team gateway asked r denial)))
        denial

  unfoldable pub request_shaped :
      ℕ
      → ℕ
      → ℕ
      → Option Json
      → List Membership
      → List CommandRow
      → CommandDefinition
      → Team
      → Gateway
      → Resolved
      → Asked
      → Option Denial
      → Answer
  request_shaped pk approval_pk now current members rows definition team gateway answer asked
        (some d) =
      raised d
  request_shaped pk approval_pk now current members rows definition team gateway answer asked none =
      record_request pk approval_pk now current rows definition team gateway asked
        (resolve_target asked (policy_denial members definition team gateway asked) answer)

  unfoldable pub request_defined :
      ℕ
      → ℕ
      → ℕ
      → Option Json
      → List Membership
      → List CommandRow
      → Option CommandDefinition
      → Team
      → Gateway
      → Resolved
      → Asked
      → Answer
  unfolding request_shaped
  request_defined pk approval_pk now current members rows none team gateway answer asked =
      raised (record {
        code = "unsupported_operation";
        message = "Unsupported remote operation '" ++ (asked.operation ++ "'.");
      })
  request_defined pk approval_pk now current members rows (some definition) team gateway answer
        asked =
      request_shaped pk approval_pk now current members rows definition team gateway answer asked
        (shape_error definition gateway asked)

  -- `_request_remote_command_atomic` and the exception that `request_remote_command` adds.
  unfoldable pub request_remote_command :
      ℕ
      → ℕ
      → ℕ
      → Option Json
      → List Membership
      → List CommandRow
      → Team
      → Gateway
      → Resolved
      → Asked
      → Answer
  unfolding request_defined
  request_remote_command pk approval_pk now current members rows team gateway answer asked =
      request_defined pk approval_pk now current members rows (catalog_get asked.operation) team
        gateway answer asked
