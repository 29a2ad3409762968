-- ===== src/Readiness/Suspend/Stop.antt =====
-- apps/devices/control_readiness.py: proofs on `emergency_disable`.
use novena_hub.Prelude.{
  ℕ, ◌+◌, ◌≤◌, ◌<◌, ◌≡◌, ◌≢◌, inl, inr, refl, true, false, String, some, List, [], ◌∷◌, arith, ap,
  ◌∙◌, All, Bool-cases, if◌then◌else◌,
}
use novena_hub.Teams.Types.{Team, User, Membership}
use novena_hub.Teams.Roles.{has_permission}
use novena_hub.RemoteControl.Types.{EventPayload, CommandRow}
use novena_hub.RemoteControl.Catalog.{CommandDefinition, catalog_get}
use novena_hub.RemoteControl.Governance.{Governance, ActivationStatus, Activation}
use novena_hub.RemoteControl.Dispatch.{Settings}
use novena_hub.RemoteControl.Dispatch.Claim.{claimed_as, Context, claim_row}
use novena_hub.RemoteControl.Dispatch.Safety.{claim_row-IsAuthorized}
use novena_hub.Readiness.Types.{ok}
use novena_hub.Readiness.Suspend.{
  StopScope, stops_activation, stopped_team, suspend_activations, emergency_disable, site_of,
}

stopped_epoch :
    (stop : StopScope) (team : Team)
    → (stopped_team stop team).remote_control_epoch ≡ team.remote_control_epoch + 1
unfolding stopped_team
stopped_epoch stop team = refl

-- What an emergency stop writes, when the actor may stop.
pub stop_lem :
    (members : List Membership) (actor : User) (reason : String) (stop : StopScope) (team : Team)
    (g : Governance) {epoch : ℕ}
    → (emergency_disable members actor reason stop (team, g)).0 ≡ ok epoch
    → ((emergency_disable members actor reason stop (team, g)).1.0 ≡ stopped_team stop team)
      × ((emergency_disable members actor reason stop (team, g)).1.1.activations
          ≡ suspend_activations (stops_activation team stop) reason g.activations)
      × (epoch ≡ team.remote_control_epoch + 1)
unfolding emergency_disable
stop_lem members actor reason stop team g h =
    elim (Bool-cases
      (has_permission members actor (some team) "toggle_remote_control" (site_of stop))) [
        | inl may ↦ rw may (refl, refl, cc (rw may at h))
        | inr refused ↦ cc (rw refused at h)
      ]

one_suspended :
    (team : Team) (stop : StopScope) (reason : String) (a : Activation)
    → stops_activation team stop (
        if stops_activation team stop a
        then record a { status = ActivationStatus.suspended; suspended_reason = reason }
        else a)
      ≡ false
one_suspended team stop reason a = elim (Bool-cases (stops_activation team stop a)) [
  | inl hit ↦ rw hit (ground arith)
  | inr miss ↦ rw miss miss
]

suspended_none :
    (team : Team) (stop : StopScope) (reason : String) (xs : List Activation)
    → All
        (λ a. stops_activation team stop a ≡ false)
        (suspend_activations (stops_activation team stop) reason xs)
unfolding suspend_activations
suspended_none team stop reason [] = tt
suspended_none team stop reason (a ∷ xs) =
    (one_suspended team stop reason a, suspended_none team stop reason xs)

module _ (digest : EventPayload → ℕ) where
  -- A state-changing command of an epoch before that of its team is not published.
  pub old_epoch_blocks :
      (s : Settings) (now checked_at : ℕ) (ctx : Context) (row : CommandRow) (d : CommandDefinition)
      (n : ℕ) (row' : CommandRow)
      → catalog_get row.command.operation ≡ some d
      → d.state_changing ≡ true
      → row.command.control_epoch < ctx.team.remote_control_epoch
      → claim_row digest s now checked_at ctx row ≢ claimed_as n row'
  old_epoch_blocks s now checked_at ctx row d n row' known changing old claim =
      let a = claim_row-IsAuthorized digest s now checked_at ctx row n row' claim in
      let same : a.definition ≡ d = cc (a.catalogued) in
      let c = a.controls (rw same changing) in absurd (omega (arith, c.epoch))

  -- After an emergency stop by someone who may stop, no state-changing command of the epoch before it
  -- is claimed for publishing under the stopped team, and no activation within the scope of the stop
  -- is active.
  pub emergency_stop_blocks :
      (members : List Membership) (actor : User) (reason : String) (stop : StopScope) (team : Team)
      (g : Governance) {epoch : ℕ} (s : Settings) (now checked_at : ℕ) (ctx : Context)
      (row : CommandRow) (d : CommandDefinition) (n : ℕ) (row' : CommandRow)
      → (emergency_disable members actor reason stop (team, g)).0 ≡ ok epoch
      → ctx.team ≡ (emergency_disable members actor reason stop (team, g)).1.0
      → catalog_get row.command.operation ≡ some d
      → d.state_changing ≡ true
      → row.command.control_epoch ≤ team.remote_control_epoch
      → (claim_row digest s now checked_at ctx row ≢ claimed_as n row')
        × All
            (λ a. stops_activation team stop a ≡ false)
            (emergency_disable members actor reason stop (team, g)).1.1.activations
  emergency_stop_blocks members actor reason stop team g s now checked_at ctx row d n row' done
        stopped known changing old =
      let (t, a, e) = stop_lem members actor reason stop team g done in
      let raised : ctx.team.remote_control_epoch ≡ team.remote_control_epoch + 1 =
        ap (λ (x : Team). x.remote_control_epoch) (stopped ∙ t) ∙ stopped_epoch stop team in
      (
        old_epoch_blocks s now checked_at ctx row d n row' known changing (omega arith),
        rw a (suspended_none team stop reason g.activations),
      )
