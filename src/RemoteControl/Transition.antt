-- ===== src/RemoteControl/Transition.antt =====
-- apps/devices/remote_control.py: `transition_command`.
pub mod Laws
use mathlib.Core.Logic.{ite}
use novena_hub.Prelude.{ℕ, Bool, true, false, ◌||◌, String, Option, none, some, ltb, if◌then◌else◌}
use novena_hub.Json.{Json, Fields}
use novena_hub.Teams.Types.{User}
use novena_hub.RemoteControl.Types.{Status, Status-discrete, EventPayload, Command, CommandRow}
use novena_hub.RemoteControl.Catalog.{status_order, is_terminal}
use novena_hub.RemoteControl.Events.{append_event}

-- The keys that the callers put into `updates`; a key that is absent is `none`.
pub record Updates : Type 0 where
  pub execution_status : Option String
  pub gateway_received_at : Option ℕ
  pub response_payload : Option Json
  pub error_code : Option String
  pub error_message : Option String
  pub completed_at : Option ℕ

abbrev pub no_updates : Updates
no_updates = record {
  execution_status = none;
  gateway_received_at = none;
  response_payload = none;
  error_code = none;
  error_message = none;
  completed_at = none;
}

abbrev pub given {ℓ} : {A : Type ℓ} → Option A → A → A
given none old = old
given (some new) old = new

abbrev given_time : Option ℕ → Option ℕ → Option ℕ
given_time none old = old
given_time (some new) old = some new

-- `for field, value in updates.items(): setattr(locked, field, value)`
unfoldable pub apply_updates : Updates → Command → Command
apply_updates u c = record c {
  execution_status = given u.execution_status c.execution_status;
  gateway_received_at = given_time u.gateway_received_at c.gateway_received_at;
  response_payload = given u.response_payload c.response_payload;
  error_code = given u.error_code c.error_code;
  error_message = given u.error_message c.error_message;
  completed_at = given_time u.completed_at c.completed_at;
}

-- What a caller of `transition_command` asks for.
pub record Request : Type 0 where
  pub to_status : Status
  pub event_type : String
  pub actor : Option User
  pub evidence : Fields
  pub updates : Updates

-- `previous in TERMINAL_STATUSES or STATUS_ORDER[to_status] < STATUS_ORDER[previous]`
unfoldable pub refuses : Status → Status → Bool
unfolding status_order is_terminal
refuses previous to_status =
    is_terminal previous || ltb (status_order to_status) (status_order previous)

module _ (digest : EventPayload → ℕ) where
  abbrev advance : Request → CommandRow → CommandRow
  advance r row =
      append_event digest
        (record {
          event_type = r.event_type;
          actor = r.actor;
          from_status = some row.command.status;
          to_status = some r.to_status;
          evidence = r.evidence;
        })
        (record row {
          command = apply_updates r.updates (record row.command { status = r.to_status });
        })

  -- The row after the call, and whether the status has changed.
  unfoldable pub transition_command : Request → CommandRow → CommandRow × Bool
  unfolding refuses apply_updates Status-discrete
  transition_command r row =
      ite (Status-discrete row.command.status r.to_status)
        (record row { command = apply_updates r.updates row.command }, false)
        (if refuses row.command.status r.to_status then (row, false) else (advance r row, true))
