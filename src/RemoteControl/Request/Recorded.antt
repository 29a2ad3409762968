-- ===== src/RemoteControl/Request/Recorded.antt =====
-- apps/devices/remote_control.py: proofs on the row that a request writes.
use novena_hub.Prelude.{
  ℕ, ◌+◌, ◌≤◌, ◌≡◌, ◌⊎◌, refl, Bool, true, false, Option, none, some, List, arith, ap, ◌∙◌, All,
  seconds, inl, inr,
}
use novena_hub.Json.{Json}
use novena_hub.Teams.Types.{Team, Membership, RemoteControlMode}
use novena_hub.RemoteControl.Types.{Status, CommandRow, EventPayload, Gateway, Device, Denial}
use novena_hub.RemoteControl.Catalog.{CommandDefinition}
use novena_hub.RemoteControl.Protocol.Eligibility.{IsEligible, no_error-IsEligible}
use novena_hub.RemoteControl.Events.{append_event, new_event}
use novena_hub.RemoteControl.Events.Trail.{IsLogged, Tells, silent, Tells-IsLogged}
use novena_hub.Readiness.Approve.{Binding, new_outbox}
use novena_hub.RemoteControl.Request.{
  Resolution, Asked, recorded, policy_denial, user_has_permission, is_user, target_site,
}
use novena_hub.RemoteControl.Request.Record.{
  sequence_for, lifetime, initial_status, create_command, log_request, route, code_of,
}
use novena_hub.RemoteControl.Request.Submit.{record_request}
use novena_hub.RemoteControl.Request.Numbering.{lifetime_bounds, IsBelow, last_sequence_above}

-- What a request with a permit must have met, for an operation that changes state.
pub record IsPermitted (members : List Membership) (definition : CommandDefinition) (team : Team)
    (gateway : Gateway) (asked : Asked) : Type 0 where
  pub user_permission :
      is_user asked.source ≡ true
      → user_has_permission members asked.requested_by team definition.permission
          (target_site gateway asked.device)
        ≡ true
  pub controlled :
      definition.state_changing ≡ true
      → (team.remote_control_mode ≡ RemoteControlMode.controlled) × IsEligible gateway

pub permitted :
    (members : List Membership) (definition : CommandDefinition) (team : Team) (gateway : Gateway)
    (asked : Asked)
    → policy_denial members definition team gateway asked ≡ none
    → IsPermitted members definition team gateway asked
unfolding policy_denial
permitted members definition team gateway asked h = record {
  user_permission = λ u. ground arith;
  controlled = λ c. (ground arith, no_error-IsEligible gateway (ground arith));
}

-- What stands in the tables once a request is recorded: an expiry within five minutes, a number
-- above those of the earlier commands of the device, a log that leads to the status; and either a
-- refusal with nothing to dispatch, or a permit with the outbox or the request for approval.
pub record IsRecorded (digest : EventPayload → ℕ) (now : ℕ) (members : List Membership)
    (rows : List CommandRow) (definition : CommandDefinition) (team : Team) (gateway : Gateway)
    (asked : Asked) (row : CommandRow) (denial : Option Denial) : Type 0 where
  pub earliest : now + seconds 5 ≤ row.command.expires_at
  pub latest : row.command.expires_at ≤ now + seconds 300
  pub numbered :
      (d : Device)
      → asked.device ≡ some d
      → All (IsBelow (some d.pk) row.command.sequence_number) rows
  pub logged : IsLogged digest row
  pub on_denial :
      (d : Denial)
      → denial ≡ some d
      → (row.command.status ≡ Status.policy_denied)
        × (row.command.error_code ≡ d.code)
        × (row.outbox ≡ none)
        × (row.approval ≡ none)
  pub on_permit :
      denial ≡ none
      → IsPermitted members definition team gateway asked
        × (((row.command.status ≡ Status.queued) × (row.outbox ≡ some (new_outbox now)))
            ⊎ ((row.command.status ≡ Status.awaiting_approval) × (row.outbox ≡ none)))

module _ (digest : EventPayload → ℕ) (checksum : Binding → ℕ) where
  route-Tells :
      (approval_pk now : ℕ) (current : Option Json) (o : Option Denial) (b : Bool)
      (row : CommandRow)
      → Tells digest row (route digest checksum approval_pk now current o b row)
  unfolding route
  route-Tells approval_pk now current (some d) b row = silent refl refl refl
  route-Tells approval_pk now current none true row = silent refl refl refl
  route-Tells approval_pk now current none false row = silent refl refl refl

  route_expiry :
      (approval_pk now : ℕ) (current : Option Json) (o : Option Denial) (b : Bool)
      (row : CommandRow)
      → (route digest checksum approval_pk now current o b row).command ≡ row.command
  unfolding route
  route_expiry approval_pk now current (some d) b row = refl
  route_expiry approval_pk now current none true row = refl
  route_expiry approval_pk now current none false row = refl

  route_denied :
      (approval_pk now : ℕ) (current : Option Json) (o : Option Denial) (b : Bool)
      (row : CommandRow) (d : Denial)
      → o ≡ some d
      → row.outbox ≡ none
      → row.approval ≡ none
      → (initial_status o b ≡ Status.policy_denied)
        × ((route digest checksum approval_pk now current o b row).outbox ≡ none)
        × ((route digest checksum approval_pk now current o b row).approval ≡ none)
  unfolding route initial_status
  route_denied approval_pk now current (some x) b row d e no_outbox no_approval =
      (refl, no_outbox, no_approval)
  route_denied approval_pk now current none b row d e no_outbox no_approval = cc

  route_permits :
      (approval_pk now : ℕ) (current : Option Json) (o : Option Denial) (b : Bool)
      (row : CommandRow)
      → o ≡ none
      → row.command.status ≡ initial_status o b
      → row.outbox ≡ none
      → (((route digest checksum approval_pk now current o b row).command.status ≡ Status.queued)
          × ((route digest checksum approval_pk now current o b row).outbox
              ≡ some (new_outbox now)))
        ⊎ (((route digest checksum approval_pk now current o b row).command.status
              ≡ Status.awaiting_approval)
            × ((route digest checksum approval_pk now current o b row).outbox ≡ none))
  unfolding route initial_status
  route_permits approval_pk now current (some x) b row e s no_outbox = cc
  route_permits approval_pk now current none true row e s no_outbox = inr (s, no_outbox)
  route_permits approval_pk now current none false row e s no_outbox = inl (s, refl)

  -- The row once its first event is written.
  abbrev logged_row :
      ℕ
      → ℕ
      → List CommandRow
      → CommandDefinition
      → Team
      → Gateway
      → Asked
      → Resolution
      → Option Denial
      → CommandRow
  logged_row pk now rows definition team gateway asked r denial =
      log_request digest checksum asked r denial
        (create_command digest checksum pk now rows definition team gateway asked r denial)

  first_event :
      (pk now : ℕ) (rows : List CommandRow) (definition : CommandDefinition) (team : Team)
      (gateway : Gateway) (asked : Asked) (r : Resolution) (denial : Option Denial)
      → IsLogged digest (logged_row pk now rows definition team gateway asked r denial)
  unfolding log_request create_command append_event new_event
  first_event pk now rows definition team gateway asked r denial = record {
    chained = (refl, refl, tt);
    trail = (Status.requested, refl, refl, refl);
  }

  -- The columns that the first event leaves alone.
  logged_columns :
      (pk now : ℕ) (rows : List CommandRow) (definition : CommandDefinition) (team : Team)
      (gateway : Gateway) (asked : Asked) (r : Resolution) (denial : Option Denial)
      → let row = logged_row pk now rows definition team gateway asked r denial in
        (row.command.expires_at ≡ now + seconds (lifetime asked.ttl_seconds))
        × (row.command.sequence_number ≡ sequence_for asked.device rows)
        × (row.command.status ≡ initial_status denial r.approval_required)
        × (row.command.error_code ≡ code_of denial)
        × (row.outbox ≡ none)
        × (row.approval ≡ none)
  unfolding log_request create_command append_event
  logged_columns pk now rows definition team gateway asked r denial =
      (refl, refl, refl, refl, refl, refl)

  numbered_lem :
      (asked : Asked) (rows : List CommandRow) (d : Device)
      → asked.device ≡ some d
      → All (IsBelow (some d.pk) (sequence_for asked.device rows)) rows
  unfolding sequence_for
  numbered_lem asked rows d e = simp e (last_sequence_above (some d.pk) rows)

  recorded_lem :
      (pk approval_pk now : ℕ) (current : Option Json) (members : List Membership)
      (rows : List CommandRow) (definition : CommandDefinition) (team : Team) (gateway : Gateway)
      (asked : Asked) (r : Resolution) (denial : Option Denial)
      → (denial ≡ none → IsPermitted members definition team gateway asked)
      → IsRecorded digest now members rows definition team gateway asked
          (route digest checksum approval_pk now current denial r.approval_required
            (logged_row pk now rows definition team gateway asked r denial))
          denial
  recorded_lem pk approval_pk now current members rows definition team gateway asked r denial
        ok_if =
      let row = logged_row pk now rows definition team gateway asked r denial in
      let same = route_expiry approval_pk now current denial r.approval_required row in
      let (expiry, number, status, code, outbox, approval) =
        logged_columns pk now rows definition team gateway asked r denial in
      let (low, high) = lifetime_bounds asked.ttl_seconds in
      record {
        earliest = rw (same, expiry) (omega (arith, low));
        latest = rw (same, expiry) (omega (arith, high));
        numbered = λ d e. rw (same, number) (numbered_lem asked rows d e);
        logged =
            Tells-IsLogged digest
              (route-Tells approval_pk now current denial r.approval_required row)
              (first_event pk now rows definition team gateway asked r denial);
        on_denial = λ d e.
            let (s, o, a) =
              route_denied approval_pk now current denial r.approval_required row d e outbox
                approval in
            (rw same (status ∙ s), rw same (code ∙ ap code_of e), o, a);
        on_permit = λ e. (
          ok_if e,
          route_permits approval_pk now current denial r.approval_required row e status outbox,
        );
      }

  pub answer_lem :
      (pk approval_pk now : ℕ) (current : Option Json) (members : List Membership)
      (rows : List CommandRow) (definition : CommandDefinition) (team : Team) (gateway : Gateway)
      (asked : Asked) (x : Resolution × Option Denial) {row : CommandRow} {denial : Option Denial}
      → (x.1 ≡ none → IsPermitted members definition team gateway asked)
      → record_request digest checksum pk approval_pk now current rows definition team gateway asked
          x
        ≡ recorded row denial
      → IsRecorded digest now members rows definition team gateway asked row denial
  unfolding record_request
  answer_lem pk approval_pk now current members rows definition team gateway asked (r, d) {row}
        {denial} ok_if h =
      let same_denial : denial ≡ d = cc in
      let same_row : row
          ≡ route digest checksum approval_pk now current d r.approval_required
              (logged_row pk now rows definition team gateway asked r d) =
        cc in
      rw (same_denial, same_row)
        (recorded_lem pk approval_pk now current members rows definition team gateway asked r d
          ok_if)
