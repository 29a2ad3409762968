-- ===== src/Readiness/Suspend/Quiet.antt =====
-- apps/devices/control_recovery.py: what `disaster_recovery_control_reset` leaves in the tables.
use novena_hub.Prelude.{
  ◌+◌, ◌≤◌, ◌<◌, ◌≡◌, ◌≢◌, inl, inr, refl, Bool, true, false, String, Option, none, some, List, [],
  ◌∷◌, arith, ltb, All, Each, Each-map, Bool-cases, update_where,
}
use novena_hub.Teams.Types.{Team, RemoteControlMode}
use novena_hub.RemoteControl.Types.{
  Status, OutboxStatus, Outbox, ApprovalStatus, Approval, Command, CommandRow,
}
use novena_hub.RemoteControl.Catalog.{status_order}
use novena_hub.RemoteControl.Governance.{ScopeMode, ActivationStatus, is_active_status}
use novena_hub.Readiness.Suspend.{
  Hub, is_pending, reset_command, reset_outbox, reset_approval, reset_row, is_undecided,
  is_cancellable, lock_down, suspend_scopes, suspend_activations, disaster_recovery_control_reset,
}

-- Whether a status comes before the publication.
abbrev is_unsent : Status → Bool
is_unsent status = ltb (status_order status) (status_order Status.publish_accepted)

-- What becomes of a command and the rows beside it: one that was not published is cancelled, any
-- other is as it was; nothing is left to dispatch, except for a retry, or to approve; and the log
-- stays.
pub record IsReset (reason : String) (old new : CommandRow) : Type 0 where
  pub unsent :
      status_order old.command.status < status_order Status.publish_accepted
      → new.command ≡ record old.command {
        status = Status.cancelled;
        error_code = "disaster_recovery_reset";
        error_message = reason;
      }
  pub sent :
      status_order Status.publish_accepted ≤ status_order old.command.status
      → new.command ≡ old.command
  pub outbox :
      (o : Outbox)
      → new.outbox ≡ some o
      → (o.status ≢ OutboxStatus.pending) × (o.status ≢ OutboxStatus.claimed)
  pub approval : (a : Approval) → new.approval ≡ some a → a.status ≢ ApprovalStatus.pending
  pub events : new.events ≡ old.events

abbrev IsLockedDown : Team → Team → Type 0
IsLockedDown old new =
    (new.pk ≡ old.pk)
    × (new.remote_control_epoch ≡ old.remote_control_epoch + 1)
    × (new.remote_control_mode ≡ RemoteControlMode.locked_down)

-- The tables after the reset against those before it.
pub record IsQuiet (reason : String) (old new : Hub) : Type 0 where
  pub rows : Each (IsReset reason) old.rows new.rows
  pub teams : Each IsLockedDown old.teams new.teams
  pub scopes : All (λ s. s.mode ≡ ScopeMode.suspended) new.governance.scopes
  pub activations : All (λ a. a.status ≢ ActivationStatus.active) new.governance.activations

-- The list of pending statuses are those before the publication.
is_pending-is_unsent : (status : Status) → is_pending status ≡ is_unsent status
unfolding is_pending status_order
is_pending-is_unsent Status.requested = refl
is_pending-is_unsent Status.awaiting_approval = refl
is_pending-is_unsent Status.approved = refl
is_pending-is_unsent Status.queued = refl
is_pending-is_unsent Status.dispatching = refl
is_pending-is_unsent _ = refl

reset_unsent :
    (reason : String) (c : Command)
    → status_order c.status < status_order Status.publish_accepted
    → reset_command reason c ≡ record c {
      status = Status.cancelled;
      error_code = "disaster_recovery_reset";
      error_message = reason;
    }
unfolding reset_command
reset_unsent reason c h =
    let p : is_pending c.status ≡ true = rw (is_pending-is_unsent c.status) (ground arith) in simp p

reset_sent :
    (reason : String) (c : Command)
    → status_order Status.publish_accepted ≤ status_order c.status
    → reset_command reason c ≡ c
unfolding reset_command
reset_sent reason c h =
    let p : is_pending c.status ≡ false = rw (is_pending-is_unsent c.status) (ground arith) in
    simp p

outbox_reset :
    (reason : String) (old : Option Outbox) (o : Outbox)
    → reset_outbox reason old ≡ some o
    → (o.status ≢ OutboxStatus.pending) × (o.status ≢ OutboxStatus.claimed)
outbox_reset reason none o h = cc
outbox_reset reason (some x) o h = elim (Bool-cases (is_cancellable x.status)) [
  | inl b ↦ ((λ e. ground arith), (λ e. ground arith))
  | inr b ↦ ((λ e. ground arith), (λ e. ground arith))
]

approval_reset :
    (reason : String) (old : Option Approval) (a : Approval)
    → reset_approval reason old ≡ some a
    → a.status ≢ ApprovalStatus.pending
approval_reset reason none a h = cc
approval_reset reason (some x) a h = elim (Bool-cases (is_undecided x.status)) [
  | inl b ↦ λ e. ground arith
  | inr b ↦ λ e. ground arith
]

reset_row-IsReset : (reason : String) (row : CommandRow) → IsReset reason row (reset_row reason row)
unfolding reset_row
reset_row-IsReset reason row = record {
  unsent = reset_unsent reason row.command;
  sent = reset_sent reason row.command;
  outbox = outbox_reset reason row.outbox;
  approval = approval_reset reason row.approval;
  events = refl;
}

module _ {ℓ κ} {A : Type ℓ} (P : A → Type κ) (p : A → Bool) (f : A → A) where
  update_where-All :
      ((a : A) → P (f a))
      → ((a : A) → p a ≡ false → P a)
      → (xs : List A) → All P (update_where p f xs)
  update_where-All written kept [] = tt
  update_where-All written kept (x ∷ xs) = elim (Bool-cases (p x)) [
    | inl b ↦ rw b (written x, update_where-All written kept xs)
    | inr b ↦ rw b (kept x b, update_where-All written kept xs)
  ]

-- The reset cancels every command that comes before its publication, in the order of statuses, and
-- leaves the other commands as they are; no outbox is pending or claimed and no approval pending
-- afterwards; the logs are unchanged. Every team is locked down in its next epoch, every scope is
-- suspended, and no activation is active.
pub reset-IsQuiet :
    (reason : String) (h : Hub) → IsQuiet reason h (disaster_recovery_control_reset reason h).1
unfolding disaster_recovery_control_reset suspend_scopes suspend_activations lock_down
reset-IsQuiet reason h = record {
  rows = Each-map (reset_row reason) (reset_row-IsReset reason) h.rows;
  teams = Each-map lock_down (λ t. (refl, refl, refl)) h.teams;
  scopes =
      update_where-All (λ s. s.mode ≡ ScopeMode.suspended) (λ s. true) _ (λ s. refl) (λ s b. cc)
        h.governance.scopes;
  activations =
      update_where-All (λ a. a.status ≢ ActivationStatus.active) (λ a. is_active_status a.status) _
        (λ a e. cc) (λ a b e. cc (rw e at b)) h.governance.activations;
}
