-- ===== src/Readiness/Suspend/Reset.antt =====
-- apps/devices/control_recovery.py: proofs on `disaster_recovery_control_reset`.
use mathlib.Core.List.{Memᴰ}
use novena_hub.Prelude.{
  ℕ, ◌+◌, ◌≤◌, ◌<◌, ◌≡◌, ◌≢◌, inl, inr, refl, true, false, String, Option, none, some, List, [],
  ◌∷◌, arith, All, All-map, subst, sym, ap, Bool-cases, str_eq,
}
use novena_hub.Teams.Types.{Team, RemoteControlMode}
use novena_hub.RemoteControl.Types.{Status, OutboxStatus, Outbox, EventPayload, Command, CommandRow}
use novena_hub.RemoteControl.Catalog.{CommandDefinition, catalog_get}
use novena_hub.RemoteControl.Revalidation.{dispatch_revalidation_error, defined_error}
use novena_hub.RemoteControl.Dispatch.{Settings, is_due}
use novena_hub.RemoteControl.Dispatch.Claim.{claimed_as, Context, take_lease, claim_row}
use novena_hub.RemoteControl.Dispatch.Safety.{claim_row-IsAuthorized, refusal}
use novena_hub.RemoteControl.Dispatch.Delivered.{due_claims}
use novena_hub.Readiness.Suspend.{
  Hub, is_pending, reset_command, reset_outbox, reset_row, lock_down,
  disaster_recovery_control_reset,
}

teams_locked :
    (reason : String) (h : Hub)
    → All
        (λ (t : Team). t.remote_control_mode ≡ RemoteControlMode.locked_down)
        (disaster_recovery_control_reset reason h).1.teams
unfolding disaster_recovery_control_reset lock_down
teams_locked reason h =
    All-map (λ (t : Team). t.remote_control_mode ≡ RemoteControlMode.locked_down) lock_down
      (λ t. refl) h.teams

reset_operation : (reason : String) (c : Command) → (reset_command reason c).operation ≡ c.operation
unfolding reset_command
reset_operation reason c = elim (Bool-cases (is_pending c.status)) [
  | inl p ↦ rw p refl
  | inr p ↦ rw p refl
]

row_operation :
    (reason : String) (row : CommandRow)
    → (reset_row reason row).command.operation ≡ row.command.operation
unfolding reset_row
row_operation reason row = reset_operation reason row.command

reset_pending :
    (reason : String) (c : Command)
    → is_pending c.status ≡ true
    → reset_command reason c ≡ record c {
      status = Status.cancelled;
      error_code = "disaster_recovery_reset";
      error_message = reason;
    }
unfolding reset_command
reset_pending reason c p = simp p

All_at {ℓ κ} : {A : Type ℓ} (P : A → Type κ) {a : A} (xs : List A) → All P xs → Memᴰ a xs → P a
All_at P [] h m = elim m [ ]
All_at P (x ∷ xs) h (Memᴰ.head e) = subst P (sym e) h.0
All_at P (x ∷ xs) h (Memᴰ.tail m) = All_at P xs h.1 m

retry_kept :
    (reason : String) (o : Option Outbox) (outbox : Outbox)
    → o ≡ some outbox
    → outbox.status ≡ OutboxStatus.retry
    → reset_outbox reason o ≡ some outbox
retry_kept reason none outbox e retrying = cc
retry_kept reason (some o) outbox e retrying = ground arith

retry_due :
    (outbox : Outbox) (now : ℕ)
    → outbox.status ≡ OutboxStatus.retry
    → outbox.next_attempt_at ≤ now
    → is_due outbox now ≡ true
unfolding is_due
retry_due outbox now retrying due = ground arith

module _ (digest : EventPayload → ℕ) where
  locked_blocks :
      (s : Settings) (now checked_at : ℕ) (ctx : Context) (row : CommandRow) (d : CommandDefinition)
      (n : ℕ) (row' : CommandRow)
      → ctx.team.remote_control_mode ≡ RemoteControlMode.locked_down
      → catalog_get row.command.operation ≡ some d
      → d.state_changing ≡ true
      → claim_row digest s now checked_at ctx row ≢ claimed_as n row'
  locked_blocks s now checked_at ctx row d n row' locked known changing claim =
      let a = claim_row-IsAuthorized digest s now checked_at ctx row n row' claim in
      let same : a.definition ≡ d = cc (a.catalogued) in
      let c = a.controls (rw same changing) in cc (c.mode)

  -- After the reset no command that changes state is claimed for publishing, under any team of the
  -- tables.
  pub reset_blocks_writes :
      (reason : String) (h : Hub) (s : Settings) (now checked_at : ℕ) (ctx : Context)
      (row : CommandRow) (d : CommandDefinition) (n : ℕ) (row' : CommandRow)
      → Memᴰ ctx.team (disaster_recovery_control_reset reason h).1.teams
      → catalog_get row.command.operation ≡ some d
      → d.state_changing ≡ true
      → claim_row digest s now checked_at ctx (reset_row reason row) ≢ claimed_as n row'
  reset_blocks_writes reason h s now checked_at ctx row d n row' team_in known changing =
      locked_blocks s now checked_at ctx (reset_row reason row) d n row'
        (All_at _ _ (teams_locked reason h) team_in) (rw (row_operation reason row) known) changing

  harmless_passes :
      (checked_at : ℕ) (ctx : Context) (row : CommandRow) (d : CommandDefinition)
      → catalog_get row.command.operation ≡ some d
      → d.state_changing ≡ false
      → str_eq row.command.operation "write_device" ≡ false
      → row.command.gateway_id ≡ ctx.gateway.pk
      → row.command.team_id ≡ ctx.team.pk
      → checked_at < row.command.expires_at
      → refusal checked_at ctx row ≡ none
  unfolding dispatch_revalidation_error defined_error
  harmless_passes checked_at ctx row d known harmless reading gateway team fresh = ground arith

  -- A command that changes nothing, is pending and waits for its retry is cancelled by the reset, and
  -- the next claim goes on to publish it all the same, if its attempts and its lifetime last.
  pub reset_misses_retry :
      (reason : String) (s : Settings) (now checked_at : ℕ) (ctx : Context) (row : CommandRow)
      (outbox : Outbox) (d : CommandDefinition)
      → is_pending row.command.status ≡ true
      → row.outbox ≡ some outbox
      → outbox.status ≡ OutboxStatus.retry
      → outbox.next_attempt_at ≤ now
      → outbox.attempt_count < s.max_attempts
      → catalog_get row.command.operation ≡ some d
      → d.state_changing ≡ false
      → str_eq row.command.operation "write_device" ≡ false
      → row.command.gateway_id ≡ ctx.gateway.pk
      → row.command.team_id ≡ ctx.team.pk
      → checked_at < row.command.expires_at
      → ((reset_row reason row).command.status ≡ Status.cancelled)
        × (claim_row digest s now checked_at ctx (reset_row reason row)
            ≡ claimed_as
                (outbox.attempt_count + 1)
                (take_lease digest s now outbox (reset_row reason row)))
  unfolding reset_row claim_row
  reset_misses_retry reason s now checked_at ctx row outbox d pending found retrying due left known
        harmless reading gateway team fresh =
      let c = reset_pending reason row.command pending in
      (
        ap (λ (x : Command). x.status) c,
        due_claims digest s now checked_at ctx (reset_row reason row)
            (reset_outbox reason row.outbox) (retry_kept reason row.outbox outbox found retrying)
            (retry_due outbox now retrying due) left
            (harmless_passes checked_at ctx (reset_row reason row) d (rw c known) harmless
              (rw c reading) (rw c gateway) (rw c team) (rw c fresh)),
      )
