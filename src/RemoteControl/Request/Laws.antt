-- ===== src/RemoteControl/Request/Laws.antt =====
-- apps/devices/remote_control.py: proofs on `request_remote_command`.
use novena_hub.Prelude.{ℕ, ◌≡◌, refl, Option, none, some, List, Bool-cases, inl, inr}
use novena_hub.Json.{Json}
use novena_hub.Teams.Types.{Team, Membership}
use novena_hub.RemoteControl.Types.{CommandRow, EventPayload, Gateway, Device, Denial}
use novena_hub.RemoteControl.Catalog.{CommandDefinition, catalog_get}
use novena_hub.RemoteControl.Revalidation.{or_else}
use novena_hub.Readiness.Approve.{Binding}
use novena_hub.RemoteControl.Request.{
  Resolved, resolved, refused, Asked, recorded, policy_denial, shape_error,
}
use novena_hub.RemoteControl.Request.Record.{resolve_target, resolve_on, touches_register}
use novena_hub.RemoteControl.Request.Submit.{
  request_remote_command, request_shaped, request_defined,
}
use novena_hub.RemoteControl.Request.Recorded.{permitted, IsRecorded, answer_lem}

or_else-none {ℓ} : {A : Type ℓ} (x y : Option A) → or_else x y ≡ none → x ≡ none
or_else-none none y h = refl
or_else-none (some a) y h = cc

-- The resolution keeps a denial that it is given.
resolution_denial :
    (asked : Asked) (denial : Option Denial) (answer : Resolved) (device : Option Device)
    → (resolve_on asked denial answer device).1 ≡ none
    → denial ≡ none
resolution_denial asked denial answer none h = h
resolution_denial asked denial (resolved r) (some d) h =
    elim (Bool-cases (touches_register asked.operation)) [
      | inl touches ↦ (rw touches at h)
      | inr plain ↦ (rw plain at h)
    ]
resolution_denial asked denial (refused x r) (some d) h =
    elim (Bool-cases (touches_register asked.operation)) [
      | inl touches ↦ or_else-none denial (some x) (rw touches at h)
      | inr plain ↦ (rw plain at h)
    ]

target_denial :
    (asked : Asked) (denial : Option Denial) (answer : Resolved)
    → (resolve_target asked denial answer).1 ≡ none
    → denial ≡ none
unfolding resolve_target
target_denial asked denial answer h = resolution_denial asked denial answer asked.device h

module _ (digest : EventPayload → ℕ) (checksum : Binding → ℕ) where
  shaped_lem :
      (pk approval_pk now : ℕ) (current : Option Json) (members : List Membership)
      (rows : List CommandRow) (definition : CommandDefinition) (team : Team) (gateway : Gateway)
      (answer : Resolved) (asked : Asked) (shape : Option Denial) {row : CommandRow}
      {denial : Option Denial}
      → request_shaped digest checksum pk approval_pk now current members rows definition team
          gateway answer asked shape
        ≡ recorded row denial
      → (shape ≡ none) × IsRecorded digest now members rows definition team gateway asked row denial
  unfolding request_shaped
  shaped_lem pk approval_pk now current members rows definition team gateway answer asked (some d)
        h =
      cc
  shaped_lem pk approval_pk now current members rows definition team gateway answer asked none h =
      let denied = policy_denial members definition team gateway asked in
      (
        refl,
        answer_lem digest checksum pk approval_pk now current members rows definition team gateway
            asked (resolve_target asked denied answer)
            (λ e.
              permitted members definition team gateway asked (target_denial asked denied answer e))
            h,
      )

  defined_lem :
      (pk approval_pk now : ℕ) (current : Option Json) (members : List Membership)
      (rows : List CommandRow) (o : Option CommandDefinition) (team : Team) (gateway : Gateway)
      (answer : Resolved) (asked : Asked) {row : CommandRow} {denial : Option Denial}
      → request_defined digest checksum pk approval_pk now current members rows o team gateway
          answer asked
        ≡ recorded row denial
      → (definition : CommandDefinition) × (o ≡ some definition)
        × (shape_error definition gateway asked ≡ none)
        × IsRecorded digest now members rows definition team gateway asked row denial
  unfolding request_defined
  defined_lem pk approval_pk now current members rows none team gateway answer asked h = cc
  defined_lem pk approval_pk now current members rows (some definition) team gateway answer asked
        h =
      let (shaped, written) =
        shaped_lem pk approval_pk now current members rows definition team gateway answer asked _
          h in
      (definition, refl, shaped, written)

  -- A request that is recorded names an operation of the catalog and passed the checks of its
  -- shape. The row that is written expires between 5 and 300 seconds from now, has a number above
  -- those of all earlier commands of its device, and a log that explains its status. With a denial
  -- it is denied by policy, carries the code of the denial, and has neither an outbox nor an
  -- approval. Without one a user who asked had the permission; for an operation that changes state
  -- the team is under control and its Gateway eligible; and the row is either queued with a fresh
  -- outbox or awaits approval without one.
  pub request_recorded :
      (pk approval_pk now : ℕ) (current : Option Json) (members : List Membership)
      (rows : List CommandRow) (team : Team) (gateway : Gateway) (answer : Resolved) (asked : Asked)
      (row : CommandRow) (denial : Option Denial)
      → request_remote_command digest checksum pk approval_pk now current members rows team gateway
          answer asked
        ≡ recorded row denial
      → (definition : CommandDefinition) × (catalog_get asked.operation ≡ some definition)
        × (shape_error definition gateway asked ≡ none)
        × IsRecorded digest now members rows definition team gateway asked row denial
  unfolding request_remote_command
  request_recorded pk approval_pk now current members rows team gateway answer asked row denial h =
      defined_lem pk approval_pk now current members rows (catalog_get asked.operation) team gateway
        answer asked h
