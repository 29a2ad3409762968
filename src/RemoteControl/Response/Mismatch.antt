-- ===== src/RemoteControl/Response/Mismatch.antt =====
-- apps/telemetry/management/commands/mqtt_consumer.py: proofs on the suspension after a mismatch.
use novena_hub.Prelude.{
  ℕ, ◌≡◌, ◌≢◌, refl, sym, ◌∙◌, subst, true, false, String, Option, some, List, [], ◌∷◌, eq_iff,
  Bool-cases, ◌⊎◌, inl, inr, if◌then◌else◌, arith, All, All-Mem,
}
use novena_hub.Json.{Fields}
use novena_hub.RemoteControl.Types.{EventPayload, Command, CommandRow}
use novena_hub.RemoteControl.Governance.{ScopeMode, ControlScope, Governance}
use novena_hub.RemoteControl.Dispatch.{Settings}
use novena_hub.RemoteControl.Dispatch.Claim.{claimed_as, Context, claim_row}
use novena_hub.RemoteControl.Dispatch.Safety.{claim_row-IsAuthorized}
use novena_hub.Readiness.Suspend.{suspend_scopes}
use novena_hub.RemoteControl.Response.Tables.{handle-governance}
use novena_hub.RemoteControl.Response.{Exchange, Answer, response_status}
use novena_hub.RemoteControl.Response.Handle.{
  of_scope, suspend_key, verification_of, is_mismatch, is_answered, is_other_method, is_interim,
  handle_rpc_response,
}

-- A scope of the key is not enabled.
abbrev IsShut : Command → ℕ → ControlScope → Type 0
IsShut c device s = (of_scope c device s ≡ false) ⊎ (s.mode ≡ ScopeMode.suspended)

one-IsShut :
    (c : Command) (device : ℕ) (reason : String) (s : ControlScope)
    → IsShut c device (
        if of_scope c device s then record s { mode = ScopeMode.suspended; reason = reason } else s)
one-IsShut c device reason s = elim (Bool-cases (of_scope c device s)) [
  | inl hit ↦ rw hit (inr refl)
  | inr miss ↦ rw miss (inl miss)
]

suspend_scopes-IsShut :
    (c : Command) (device : ℕ) (reason : String) (xs : List ControlScope)
    → All (IsShut c device) (suspend_scopes (of_scope c device) reason xs)
unfolding suspend_scopes
suspend_scopes-IsShut c device reason [] = tt
suspend_scopes-IsShut c device reason (x ∷ xs) =
    (one-IsShut c device reason x, suspend_scopes-IsShut c device reason xs)

suspend_key-IsShut :
    (c : Command) (device : ℕ) (g : Governance)
    → All (IsShut c device) (suspend_key c device g).scopes
unfolding suspend_key
suspend_key-IsShut c device g = suspend_scopes-IsShut c device _ g.scopes

enabled_not_suspended : ScopeMode.enabled ≢ ScopeMode.suspended
enabled_not_suspended h = cc

-- A scope that an enabled write needs is one of the key.
of_scope-true :
    (c : Command) (device : ℕ) (s : ControlScope)
    → s.team ≡ c.team_id
    → s.device ≡ some device
    → s.command_key ≡ c.command_key
    → of_scope c device s ≡ true
of_scope-true c device s t d k =
    let named = (eq_iff s.command_key c.command_key).1 k in rw (t, d, named) (ground arith)

module _ (digest : EventPayload → ℕ) where
  -- When a Gateway gives a final answer to the RPC of a command on a device, and its verification
  -- says mismatch, then, under the governing tables that `_handle_rpc_response` leaves, no write of the same key
  -- of the same device and team is claimed for publishing, whatever else the claim finds.
  pub mismatch_blocks :
      (gateway : Option ℕ) (now : ℕ) (a : Answer) (x : Exchange) (row : CommandRow) (v : Fields)
      (device : ℕ) (s : Settings) (later checked_at : ℕ) (ctx : Context) (other : CommandRow)
      (n : ℕ) (other' : CommandRow)
      → is_answered gateway a x.rpc ≡ true
      → is_other_method a.method x.rpc ≡ false
      → is_interim (response_status a) ≡ false
      → x.governed ≡ some row
      → row.command.device_id ≡ some device
      → verification_of a.result ≡ some v
      → is_mismatch v ≡ true
      → ctx.governance ≡ (handle_rpc_response digest gateway now a x).governance
      → other.command.operation ≡ "write_device"
      → other.command.team_id ≡ row.command.team_id
      → other.command.command_key ≡ row.command.command_key
      → other.command.params.device_id ≡ some device
      → claim_row digest s later checked_at ctx other ≢ claimed_as n other'
  mismatch_blocks gateway now a x row v device s later checked_at ctx other n other' answered method
        final e d found bad tables writes team key target claim =
      let auth = claim_row-IsAuthorized digest s later checked_at ctx other n other' claim in
      let write = auth.writes writes in
      let act = write.key_activated in
      let shut : All (IsShut row.command device) ctx.governance.scopes =
        subst (λ g. All (IsShut row.command device) g.scopes)
          (sym (
            tables
            ∙ handle-governance digest now a gateway x row v device answered method final e d found
                bad))
          (suspend_key-IsShut row.command device x.governance) in
      let mine : of_scope row.command device act.scope ≡ true =
        of_scope-true row.command device act.scope (act.scope_team ∙ (sym auth.own_team ∙ team))
          (act.scope_device ∙ (sym write.target ∙ target)) (act.scope_key ∙ key) in
      elim (All-Mem (IsShut row.command device) ctx.governance.scopes shut act.scope_in) [
        | inl out ↦ (cc)
        | inr off ↦ enabled_not_suspended (sym act.scope_mode ∙ off)
      ]
