-- ===== src/RemoteControl/Dispatch/Safety.antt =====
-- apps/devices/remote_control.py: proofs on the claim in `dispatch_outbox`.
use novena_hub.Prelude.{ℕ, ◌+◌, ◌<◌, ◌≡◌, refl, true, false, Option, none, some, arith, seconds}
use novena_hub.RemoteControl.Types.{OutboxStatus, EventPayload, Outbox, CommandRow, Denial}
use novena_hub.RemoteControl.Revalidation.{dispatch_revalidation_error}
use novena_hub.RemoteControl.Revalidation.Authority.{IsAuthorized, revalidation_sound}
use novena_hub.RemoteControl.Dispatch.{Settings, is_due}
use novena_hub.RemoteControl.Dispatch.Claim.{
  skipped, claimed_as, Context, take_lease, revalidate, claim_outbox, claim_found, claim_row,
}

abbrev pub refusal : ℕ → Context → CommandRow → Option Denial
refusal checked_at ctx row =
    dispatch_revalidation_error checked_at ctx.governance row.command ctx.team ctx.gateway
      ctx.device

module _ (digest : EventPayload → ℕ) where
  -- How a claim came about that goes on to publish.
  pub record IsClaimed (s : Settings) (now checked_at : ℕ) (ctx : Context) (row : CommandRow)
      (n : ℕ) (row' : CommandRow) : Type 0 where
    pub outbox : Outbox
    pub found : row.outbox ≡ some outbox
    pub due : is_due outbox now ≡ true
    pub left : outbox.attempt_count < s.max_attempts
    pub number : n ≡ outbox.attempt_count + 1
    pub leased : row' ≡ take_lease digest s now outbox row
    pub unrefused : refusal checked_at ctx row ≡ none

  revalidate_claimed :
      (s : Settings) (now : ℕ) (d : Option Denial) (outbox : Outbox) (row : CommandRow) (n : ℕ)
      (row' : CommandRow)
      → revalidate digest s now d outbox row ≡ claimed_as n row'
      → (d ≡ none) × (n ≡ outbox.attempt_count + 1) × (row' ≡ take_lease digest s now outbox row)
  unfolding revalidate
  revalidate_claimed s now none outbox row n row' h = (refl, cc, cc)
  revalidate_claimed s now (some d) outbox row n row' h = cc

  claim_outbox_claimed :
      (s : Settings) (now checked_at : ℕ) (ctx : Context) (outbox : Outbox) (row : CommandRow)
      (n : ℕ) (row' : CommandRow)
      → claim_outbox digest s now checked_at ctx outbox row ≡ claimed_as n row'
      → (is_due outbox now ≡ true)
        × (outbox.attempt_count < s.max_attempts)
        × (revalidate digest s now (refusal checked_at ctx row) outbox row ≡ claimed_as n row')
  unfolding claim_outbox
  claim_outbox_claimed s now checked_at ctx outbox row n row' h = ground arith

  claim_found-IsClaimed :
      (s : Settings) (now checked_at : ℕ) (ctx : Context) (o : Option Outbox) (row : CommandRow)
      (n : ℕ) (row' : CommandRow)
      → row.outbox ≡ o
      → claim_found digest s now checked_at ctx o row ≡ claimed_as n row'
      → IsClaimed s now checked_at ctx row n row'
  unfolding claim_found
  claim_found-IsClaimed s now checked_at ctx none row n row' e h = cc
  claim_found-IsClaimed s now checked_at ctx (some outbox) row n row' e h =
      let (due, left, go_on) = claim_outbox_claimed s now checked_at ctx outbox row n row' h in
      let (unrefused, number, leased) = revalidate_claimed s now _ outbox row n row' go_on in
      record {
        outbox = outbox;
        found = e;
        due = due;
        left = left;
        number = number;
        leased = leased;
        unrefused = unrefused;
      }

  pub claim_row-IsClaimed :
      (s : Settings) (now checked_at : ℕ) (ctx : Context) (row : CommandRow) (n : ℕ)
      (row' : CommandRow)
      → claim_row digest s now checked_at ctx row ≡ claimed_as n row'
      → IsClaimed s now checked_at ctx row n row'
  unfolding claim_row
  claim_row-IsClaimed s now checked_at ctx row n row' h =
      claim_found-IsClaimed s now checked_at ctx row.outbox row n row' refl h

  -- A claim that goes on to publish holds a command that is authorized at the moment of the check: its
  -- operation is in the catalogue, it has not expired, its team and Gateway are its own; when it
  -- changes state the team is under control in its epoch and the Gateway eligible; and when it writes
  -- a device, the device is its own, the Gateway is ready for its policy, and an enabled scope and an
  -- unexpired activation cover it.
  pub claim_row-IsAuthorized :
      (s : Settings) (now checked_at : ℕ) (ctx : Context) (row : CommandRow) (n : ℕ)
      (row' : CommandRow)
      → claim_row digest s now checked_at ctx row ≡ claimed_as n row'
      → IsAuthorized checked_at ctx.governance row.command ctx.team ctx.gateway ctx.device
  claim_row-IsAuthorized s now checked_at ctx row n row' h =
      revalidation_sound checked_at ctx.governance row.command ctx.team ctx.gateway ctx.device
        (claim_row-IsClaimed s now checked_at ctx row n row' h).unrefused

  not_due_skips :
      (s : Settings) (now checked_at : ℕ) (ctx : Context) (row : CommandRow) (o : Option Outbox)
      {outbox : Outbox}
      → o ≡ some outbox
      → is_due outbox now ≡ false
      → claim_found digest s now checked_at ctx o row ≡ skipped
  unfolding claim_found claim_outbox
  not_due_skips s now checked_at ctx row none e h = cc
  not_due_skips s now checked_at ctx row (some o) {outbox} e h = ground arith

  pub claim_row_skips :
      (s : Settings) (now checked_at : ℕ) (ctx : Context) (row : CommandRow) (outbox : Outbox)
      → row.outbox ≡ some outbox
      → is_due outbox now ≡ false
      → claim_row digest s now checked_at ctx row ≡ skipped
  unfolding claim_row
  claim_row_skips s now checked_at ctx row outbox e h =
      not_due_skips s now checked_at ctx row row.outbox e h

  leased_not_due :
      (s : Settings) (now now' : ℕ) (outbox : Outbox) (row : CommandRow)
      → now' < now + seconds s.lease_seconds
      → (o : Outbox) × ((take_lease digest s now outbox row).outbox ≡ some o)
        × (is_due o now' ≡ false)
  unfolding take_lease is_due
  leased_not_due s now now' outbox row early = (
    record outbox {
      status = OutboxStatus.claimed;
      claimed_at = some now;
      lease_expires_at = some (now + seconds s.lease_seconds);
      attempt_count = outbox.attempt_count + 1;
    },
    refl,
    ground arith,
  )

  -- After a claim that goes on to publish, every other claim of the same row is skipped for as long as
  -- the lease lasts, under any settings.
  pub lease_excludes :
      (s s' : Settings) (now checked_at now' checked_at' : ℕ) (ctx ctx' : Context)
      (row : CommandRow) (n : ℕ) (row' : CommandRow)
      → claim_row digest s now checked_at ctx row ≡ claimed_as n row'
      → now' < now + seconds s.lease_seconds
      → claim_row digest s' now' checked_at' ctx' row' ≡ skipped
  lease_excludes s s' now checked_at now' checked_at' ctx ctx' row n row' h early =
      let c = claim_row-IsClaimed s now checked_at ctx row n row' h in
      let (o, found, not_due) = leased_not_due s now now' c.outbox row early in
      claim_row_skips s' now' checked_at' ctx' row' o (rw c.leased found) not_due
