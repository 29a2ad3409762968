-- ===== src/Readiness/Suspend.antt =====
-- apps/devices/control_readiness.py and control_recovery.py: the emergency stop, the rollback of a
-- policy and the reset after a restore. Each raises the control epoch of the team.
pub mod Stop
pub mod Reset
pub mod Quiet
use novena_hub.Prelude.{
  ℕ, ◌+◌, Bool, true, false, not, ◌&&◌, ◌||◌, String, Option, none, some, List, [], ◌∷◌, map, ◌==◌,
  str_eq, any, option_eq, contains, refers, is_some, update_where, if◌then◌else◌,
}
use novena_hub.Teams.Types.{Team, User, Membership, RemoteControlMode}
use novena_hub.Teams.Roles.{has_permission, administrators}
use novena_hub.RemoteControl.Types.{
  Status, OutboxStatus, Outbox, Approval, ApprovalStatus, Command, CommandRow, Device,
}
use novena_hub.RemoteControl.Governance.{
  ScopeMode, ActivationStatus, ControlScope, Activation, Governance, is_active_status,
}
use novena_hub.Readiness.Types.{Result, ok, deny_with}

-- The site, Gateway and device that narrow a stop, by their keys.
pub record StopScope : Type 0 where
  pub site : Option ℕ
  pub gateway : Option ℕ
  pub device : Option Device

-- `if x: rows = rows.filter(column=x)`
abbrev pub narrowed : Option ℕ → Option ℕ → Bool
narrowed none column = true
narrowed (some x) column = refers column x

abbrev pub device_pk : Option Device → Option ℕ
device_pk none = none
device_pk (some d) = some d.pk

abbrev device_site : Option Device → Option ℕ
device_site none = none
device_site (some d) = d.site

-- `site or getattr(device, "site", None)`
abbrev pub site_of : StopScope → Option ℕ
site_of stop = elim stop.site [ none ↦ device_site stop.device | some s ↦ some s ]

abbrev pub is_everywhere : StopScope → Bool
is_everywhere stop =
    not (is_some stop.site || (is_some stop.gateway || is_some (device_pk stop.device)))

unfoldable pub suspend_scopes :
    (ControlScope → Bool) → String → List ControlScope → List ControlScope
suspend_scopes p reason =
    update_where p (λ s. record s { mode = ScopeMode.suspended; reason = reason })

unfoldable pub suspend_activations :
    (Activation → Bool) → String → List Activation → List Activation
suspend_activations p reason =
    update_where p
      (λ a. record a { status = ActivationStatus.suspended; suspended_reason = reason })

abbrev pub stops_scope : Team → StopScope → ControlScope → Bool
stops_scope team stop s =
    (s.team == team.pk)
    && (narrowed stop.site s.site
        && (narrowed stop.gateway s.gateway && narrowed (device_pk stop.device) s.device))

abbrev pub stops_activation : Team → StopScope → Activation → Bool
stops_activation team stop a =
    (a.team == team.pk)
    && (is_active_status a.status
        && (narrowed stop.site a.device_site
            && (narrowed stop.gateway a.device_gateway
                && narrowed (device_pk stop.device) (some a.device))))

-- The team after an emergency stop.
unfoldable pub stopped_team : StopScope → Team → Team
stopped_team stop team = record team {
  remote_control_epoch = team.remote_control_epoch + 1;
  remote_control_mode =
      if is_everywhere stop then RemoteControlMode.locked_down else team.remote_control_mode;
}

-- `emergency_disable`, on the team and the governing records.
unfoldable pub emergency_disable :
    List Membership → User → String → StopScope → Team × Governance → Result ℕ × (Team × Governance)
unfolding suspend_scopes suspend_activations stopped_team
emergency_disable members actor reason stop (team, g) =
    if has_permission members actor (some team) "toggle_remote_control" (site_of stop)
    then (
      ok (team.remote_control_epoch + 1),
      (
        stopped_team stop team,
        record g {
          scopes = suspend_scopes (stops_scope team stop) reason g.scopes;
          activations = suspend_activations (stops_activation team stop) reason g.activations;
        },
      ),
    )
    else (deny_with "permission_denied" "You cannot disable this control scope.", (team, g))

-- `rollback_policy_as_new_epoch`; its `PermissionError` is a denial with that name.
unfoldable pub rollback_policy_as_new_epoch :
    List Membership → User → String → Team × Governance → Result ℕ × (Team × Governance)
unfolding suspend_scopes suspend_activations
rollback_policy_as_new_epoch members actor reason (team, g) =
    if any (λ m. (m.team == team.pk) && ((m.user == actor.pk) && contains administrators m.role))
      members
    then (
      ok (team.remote_control_epoch + 1),
      (
        record team {
          remote_control_epoch = team.remote_control_epoch + 1;
          remote_control_mode = RemoteControlMode.monitoring_only;
        },
        record g {
          scopes = suspend_scopes (λ s. s.team == team.pk) reason g.scopes;
          activations =
              suspend_activations (λ a. (a.team == team.pk) && is_active_status a.status) reason
                g.activations;
        },
      ),
    )
    else (
      deny_with "PermissionError"
          "Only a customer owner or administrator can roll back control policy.",
      (team, g),
    )

-- `status__in=pending`
unfoldable pub is_pending : Status → Bool
is_pending Status.requested = true
is_pending Status.awaiting_approval = true
is_pending Status.approved = true
is_pending Status.queued = true
is_pending Status.dispatching = true
is_pending _ = false

unfoldable pub reset_command : String → Command → Command
unfolding is_pending
reset_command reason c =
    if is_pending c.status
    then record c {
      status = Status.cancelled;
      error_code = "disaster_recovery_reset";
      error_message = reason;
    }
    else c

-- `status__in=[PENDING, CLAIMED]`
abbrev pub is_cancellable : OutboxStatus → Bool
is_cancellable OutboxStatus.pending = true
is_cancellable OutboxStatus.claimed = true
is_cancellable _ = false

abbrev pub reset_outbox : String → Option Outbox → Option Outbox
reset_outbox reason none = none
reset_outbox reason (some o) = some (
    if is_cancellable o.status
    then record o { status = OutboxStatus.cancelled; last_error = reason }
    else o)

abbrev pub is_undecided : ApprovalStatus → Bool
is_undecided ApprovalStatus.pending = true
is_undecided _ = false

abbrev pub reset_approval : String → Option Approval → Option Approval
reset_approval reason none = none
reset_approval reason (some a) = some (
    if is_undecided a.status
    then record a { status = ApprovalStatus.invalidated; decision_reason = reason }
    else a)

unfoldable pub reset_row : String → CommandRow → CommandRow
unfolding reset_command
reset_row reason row = record row {
  command = reset_command reason row.command;
  outbox = reset_outbox reason row.outbox;
  approval = reset_approval reason row.approval;
}

unfoldable pub lock_down : Team → Team
lock_down team = record team {
  remote_control_epoch = team.remote_control_epoch + 1;
  remote_control_mode = RemoteControlMode.locked_down;
}

-- The tables that the reset writes.
pub record Hub : Type 0 where
  pub rows : List CommandRow
  pub teams : List Team
  pub governance : Governance

-- The number of rows that `update` reports.
unfoldable pub count_pending : List CommandRow → ℕ
unfolding is_pending
count_pending [] = 0
count_pending (row ∷ rest) = (if is_pending row.command.status then 1 else 0) + count_pending rest

-- `disaster_recovery_control_reset`
unfoldable pub disaster_recovery_control_reset : String → Hub → ℕ × Hub
unfolding count_pending reset_row suspend_scopes suspend_activations lock_down
disaster_recovery_control_reset reason h = (
  count_pending h.rows,
  record h {
    rows = map (reset_row reason) h.rows;
    teams = map lock_down h.teams;
    governance = record h.governance {
      scopes = suspend_scopes (λ s. true) reason h.governance.scopes;
      activations =
          suspend_activations (λ a. is_active_status a.status) reason h.governance.activations;
    };
  },
)
