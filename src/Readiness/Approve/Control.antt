-- ===== src/Readiness/Approve/Control.antt =====
-- apps/devices/control_readiness.py: proofs on `approve_command`.
use novena_hub.Prelude.{
  ℕ, ◌≤◌, ◌<◌, ◌≡◌, refl, true, false, Option, none, some, List, arith, refers,
}
use novena_hub.Json.{Json}
use novena_hub.Teams.Types.{Team, User, Membership}
use novena_hub.Teams.Roles.{has_permission}
use novena_hub.RemoteControl.Types.{Status, EventPayload, CommandRow, Gateway, Approval, Outbox}
use novena_hub.RemoteControl.Events.{append_event}
use novena_hub.RemoteControl.Events.Trail.{Tells, append_event-Tells}
use novena_hub.Readiness.Types.{
  Result, ok, denied, integrity_error, does_not_exist, deny_with, kept,
}
use novena_hub.Readiness.Approve.{
  Binding, binding_of, approval_permission, auth_is_stale, Decision, new_outbox, grant,
  decide_approval, approve_found, approve_command,
}

module _ (digest : EventPayload → ℕ) (checksum : Binding → ℕ) where
  -- Another person with the permission for the risk, a second factor, a login of the last five
  -- minutes, and a command that is still the one that approval was asked for.
  pub record IsApproved (members : List Membership) (now : ℕ) (team : Team) (gateway : Gateway)
      (current : Option Json) (approver : User) (decision : Decision) (approval : Approval)
      (row : CommandRow) : Type 0 where
    pub other_person : refers row.command.requested_by approver.pk ≡ false
    pub permitted :
        has_permission members approver
          (some team)
          (approval_permission row.command.risk)
          gateway.site
        ≡ true
    pub request_lasts : now < approval.expires_at
    pub command_lasts : now < row.command.expires_at
    pub second_factor : decision.mfa_verified ≡ true
    pub recent : auth_is_stale decision.recent_auth_at now ≡ false
    pub bound : checksum (binding_of row.command current) ≡ approval.binding_checksum
    pub undispatched : row.outbox ≡ none

  grant_ok :
      (now : ℕ) (approver : User) (decision : Decision) (approval : Approval) (o : Option Outbox)
      (row : CommandRow)
      → (grant digest checksum now approver decision approval o row).0 ≡ ok tt
      → o ≡ none
  unfolding grant
  grant_ok now approver decision approval none row h = refl
  grant_ok now approver decision approval (some o) row h = cc

  decided :
      (members : List Membership) (now : ℕ) (team : Team) (gateway : Gateway)
      (current : Option Json) (approver : User) (decision : Decision) (approval : Approval)
      (row : CommandRow)
      → (decide_approval digest checksum members now team gateway current approver decision approval
          row).0
        ≡ ok tt
      → IsApproved members now team gateway current approver decision approval row
  unfolding decide_approval
  decided members now team gateway current approver decision approval row h = record {
    other_person = ground arith;
    permitted = ground arith;
    request_lasts = ground arith;
    command_lasts = ground arith;
    second_factor = ground arith;
    recent = ground arith;
    bound = ground arith;
    undispatched = grant_ok now approver decision approval row.outbox row (ground arith);
  }

  -- The row that an approval leaves: queued, with a fresh outbox, its log extended by one event.
  pub record IsQueued (now : ℕ) (row row' : CommandRow) : Type 0 where
    pub status : row'.command.status ≡ Status.queued
    pub outbox : row'.outbox ≡ some (new_outbox now)
    pub told : Tells digest row row'

  granted :
      (now : ℕ) (approver : User) (decision : Decision) (approval : Approval) (o : Option Outbox)
      (row : CommandRow)
      → o ≡ none
      → IsQueued now row (grant digest checksum now approver decision approval o row).1
  unfolding grant
  granted now approver decision approval none row e = record {
    status = unfold append_event in refl;
    outbox = unfold append_event in refl;
    told = append_event-Tells digest _ row _ refl refl refl refl;
  }
  granted now approver decision approval (some o) row e = cc

  decided_grants :
      (members : List Membership) (now : ℕ) (team : Team) (gateway : Gateway)
      (current : Option Json) (approver : User) (decision : Decision) (approval : Approval)
      (row : CommandRow)
      → IsApproved members now team gateway current approver decision approval row
      → decide_approval digest checksum members now team gateway current approver decision approval
          row
        ≡ grant digest checksum now approver decision approval row.outbox row
  unfolding decide_approval
  decided_grants members now team gateway current approver decision approval row a = ground (
    arith, a.other_person, a.permitted, a.request_lasts, a.command_lasts, a.second_factor, a.recent,
    a.bound,
  )

  found_sound :
      (members : List Membership) (now : ℕ) (team : Team) (gateway : Gateway)
      (current : Option Json) (approver : User) (decision : Decision) (o : Option Approval)
      (row : CommandRow)
      → (approve_found digest checksum members now team gateway current approver decision o row).0
        ≡ ok tt
      → (approval : Approval) × (o ≡ some approval)
        × IsApproved members now team gateway current approver decision approval row
        × IsQueued now row
            (approve_found digest checksum members now team gateway current approver decision o
              row).1
  unfolding approve_found
  found_sound members now team gateway current approver decision none row h = cc
  found_sound members now team gateway current approver decision (some approval) row h =
      let a = decided members now team gateway current approver decision approval row h in
      (
        approval,
        refl,
        a,
        rw (decided_grants members now team gateway current approver decision approval row a)
            (granted now approver decision approval row.outbox row a.undispatched),
      )

  kept_ok {ℓ} :
      {S : Type ℓ} (r : Result (Unit {0})) (old new : S) → r ≡ ok tt → kept r old new ≡ new
  kept_ok (ok a) old new h = refl
  kept_ok (denied d) old new h = cc
  kept_ok integrity_error old new h = cc
  kept_ok does_not_exist old new h = cc

  -- When an approval passes, the command had a request for approval that has not expired, nor has the
  -- command; the approver is not the requester, has the permission for the risk, has passed a second
  -- factor and authenticated recently; the command is bound as it was requested and has no outbox. It
  -- is then queued with a fresh outbox, and its log extended by an event that tells so.
  pub approve_sound :
      (members : List Membership) (now : ℕ) (team : Team) (gateway : Gateway)
      (current : Option Json) (approver : User) (decision : Decision) (row : CommandRow)
      → (approve_command digest checksum members now team gateway current approver decision row).0
        ≡ ok tt
      → (approval : Approval) × (row.approval ≡ some approval)
        × IsApproved members now team gateway current approver decision approval row
        × IsQueued now row
            (approve_command digest checksum members now team gateway current approver decision
              row).1
  unfolding approve_command
  approve_sound members now team gateway current approver decision row h =
      let (a, e, i, q) =
        found_sound members now team gateway current approver decision row.approval row h in
      (a, e, i, rw (kept_ok _ row _ h) q)

  expired_of :
      (members : List Membership) (now : ℕ) (team : Team) (gateway : Gateway)
      (current : Option Json) (approver : User) (decision : Decision) (o : Option Approval)
      (row : CommandRow) {approval : Approval}
      → o ≡ some approval
      → refers row.command.requested_by approver.pk ≡ false
      → has_permission members approver
          (some team)
          (approval_permission row.command.risk)
          gateway.site
        ≡ true
      → approval.expires_at ≤ now
      → (approve_found digest checksum members now team gateway current approver decision o row).0
        ≡ deny_with "approval_expired" "Approval request has expired."
  unfolding approve_found decide_approval
  expired_of members now team gateway current approver decision none row e other may late = cc
  expired_of members now team gateway current approver decision (some a) row {approval} e other may
        late =
      ground arith

  -- When another person with the permission decides on a request that has expired, the call is denied
  -- and the row is as it was: the mark that the request expired is rolled back.
  pub expired_mark_is_lost :
      (members : List Membership) (now : ℕ) (team : Team) (gateway : Gateway)
      (current : Option Json) (approver : User) (decision : Decision) (approval : Approval)
      (row : CommandRow)
      → row.approval ≡ some approval
      → refers row.command.requested_by approver.pk ≡ false
      → has_permission members approver
          (some team)
          (approval_permission row.command.risk)
          gateway.site
        ≡ true
      → approval.expires_at ≤ now
      → approve_command digest checksum members now team gateway current approver decision row
        ≡ (deny_with "approval_expired" "Approval request has expired.", row)
  unfolding approve_command
  expired_mark_is_lost members now team gateway current approver decision approval row e other may
        late =
      let r =
        expired_of members now team gateway current approver decision row.approval row e other may
          late in
      simp r

  grant_passes :
      (now : ℕ) (approver : User) (decision : Decision) (approval : Approval) (o : Option Outbox)
      (row : CommandRow)
      → o ≡ none
      → (grant digest checksum now approver decision approval o row).0 ≡ ok tt
  unfolding grant
  grant_passes now approver decision approval none row e = refl
  grant_passes now approver decision approval (some o) row e = cc

  found_passes :
      (members : List Membership) (now : ℕ) (team : Team) (gateway : Gateway)
      (current : Option Json) (approver : User) (decision : Decision) (o : Option Approval)
      (row : CommandRow) {approval : Approval}
      → o ≡ some approval
      → IsApproved members now team gateway current approver decision approval row
      → (approve_found digest checksum members now team gateway current approver decision o row).0
        ≡ ok tt
  unfolding approve_found
  found_passes members now team gateway current approver decision none row e a = cc
  found_passes members now team gateway current approver decision (some x) row {approval} e a =
      let same : approval ≡ x = cc in
      let b : IsApproved members now team gateway current approver decision x row = rw same at a in
      rw (decided_grants members now team gateway current approver decision x row b)
        (grant_passes now approver decision x row.outbox row b.undispatched)

  -- The guards of an approval are all that is asked: whenever they hold the command is queued,
  -- whatever its own status and that of its request are.
  pub approve_complete :
      (members : List Membership) (now : ℕ) (team : Team) (gateway : Gateway)
      (current : Option Json) (approver : User) (decision : Decision) (approval : Approval)
      (row : CommandRow)
      → row.approval ≡ some approval
      → IsApproved members now team gateway current approver decision approval row
      → ((approve_command digest checksum members now team gateway current approver decision row).0
          ≡ ok tt)
        × IsQueued now row
            (approve_command digest checksum members now team gateway current approver decision
              row).1
  approve_complete members now team gateway current approver decision approval row e a =
      let passed : (approve_command digest checksum members now team gateway current approver
            decision row).0
          ≡ ok tt =
        unfold approve_command in
        found_passes members now team gateway current approver decision row.approval row e a in
      (passed, (approve_sound members now team gateway current approver decision row passed).3)
