-- ===== src/Readiness/Activate/Control.antt =====
-- apps/devices/control_readiness.py: proofs on `activate_control_key`.
use mathlib.Core.List.{Memᴰ}
use novena_hub.Prelude.{
  ℕ, ◌≡◌, refl, true, false, String, some, List, [], ◌∷◌, arith, any, Bool-cases, inl, inr,
  update_where, eq_iff,
}
use novena_hub.Teams.Types.{Team, User, Membership, RemoteControlMode}
use novena_hub.Teams.Roles.{has_permission}
use novena_hub.RemoteControl.Types.{Device}
use novena_hub.RemoteControl.Governance.{ScopeMode, ControlScope, Activation}
use novena_hub.Readiness.Types.{
  Result, ok, denied, integrity_error, does_not_exist, kept, AssessmentState, SessionStatus,
}
use novena_hub.Readiness.Activate.{
  ControlState, in_scope, has_envelope, has_policy, has_bundle, is_key_scope, enabled_scope,
  enable_scope, is_taken, new_activation, write_activation, activate_checked, activate_control_key,
}

-- The guards of an activation.
pub record IsEntitled (members : List Membership) (device : Device) (key : String) (user : User)
    (s : ControlState) : Type 0 where
  pub administrator :
      has_permission members user (some s.team) "toggle_remote_control" device.site ≡ true
  pub ready : s.assessment.state ≡ AssessmentState.ready_for_activation
  pub commissioned : s.session.status ≡ SessionStatus.completed
  pub listed : in_scope device.pk key s.session.controls ≡ true
  pub envelope : has_envelope device key s.governance.envelopes ≡ true
  pub policy : has_policy device key s.governance.policies ≡ true
  pub acknowledged : has_bundle device s.team.remote_control_epoch s.bundles ≡ true
  pub first : is_taken s.team device key s.governance.activations ≡ false

-- An enabled scope for exactly this key, in the epoch of the team.
pub record HasScope (team : Team) (device : Device) (key : String) (scopes : List ControlScope)
    : Type 0 where
  pub scope : ControlScope
  pub found : Memᴰ scope scopes
  pub matches : is_key_scope team device key scope ≡ true
  pub mode : scope.mode ≡ ScopeMode.enabled
  pub epoch : scope.control_epoch ≡ team.remote_control_epoch

abbrev enable : Team → ControlScope → ControlScope
enable team s = record s {
  mode = ScopeMode.enabled;
  control_epoch = team.remote_control_epoch;
  reason = "";
}

scope_updated :
    (team : Team) (device : Device) (key : String) (scopes : List ControlScope)
    → any (is_key_scope team device key) scopes ≡ true
    → HasScope team device key (update_where (is_key_scope team device key) (enable team) scopes)
scope_updated team device key [] h = cc
scope_updated team device key (x ∷ xs) h = elim (Bool-cases (is_key_scope team device key x)) [
  | inl hit ↦ record {
    scope = enable team x;
    found = Memᴰ.head (rw hit refl);
    matches = hit;
    mode = refl;
    epoch = refl;
  }
  | inr miss ↦
      let r = scope_updated team device key xs (rw miss at h) in
      record {
        scope = r.scope;
        found = Memᴰ.tail r.found;
        matches = r.matches;
        mode = r.mode;
        epoch = r.epoch;
      }
]

new_scope_matches :
    (team : Team) (device : Device) (key : String)
    → is_key_scope team device key (enabled_scope team device key) ≡ true
new_scope_matches team device key = ground (arith, eq_iff key key)

scope_enabled :
    (team : Team) (device : Device) (key : String) (scopes : List ControlScope)
    → HasScope team device key (enable_scope team device key scopes)
unfolding enable_scope
scope_enabled team device key scopes =
    elim (Bool-cases (any (is_key_scope team device key) scopes)) [
      | inl old ↦ rw old (scope_updated team device key scopes old)
      | inr new ↦ rw new (record {
        scope = enabled_scope team device key;
        found = Memᴰ.head refl;
        matches = new_scope_matches team device key;
        mode = refl;
        epoch = refl;
      })
    ]

-- What an activation leaves for dispatch to find.
pub record IsInstalled (now : ℕ) (device : Device) (key : String) (s s' : ControlState)
    : Type 0 where
  pub scope : HasScope s.team device key s'.governance.scopes
  pub activations :
      s'.governance.activations ≡ new_activation now s.team device key ∷ s.governance.activations
  pub mode : s'.team.remote_control_mode ≡ RemoteControlMode.controlled
  pub epoch : s'.team.remote_control_epoch ≡ s.team.remote_control_epoch
  pub state : s'.assessment.state ≡ AssessmentState.active

written :
    (now : ℕ) (device : Device) (key : String) (s : ControlState) {a : Activation}
    → (write_activation now device key s).0 ≡ ok a
    → (is_taken s.team device key s.governance.activations ≡ false)
      × IsInstalled now device key s (write_activation now device key s).1
unfolding write_activation
written now device key s h =
    elim (Bool-cases (is_taken s.team device key s.governance.activations)) [
      | inl taken ↦ cc (rw taken at h)
      | inr free ↦ (
        free,
        rw free (record {
          scope = scope_enabled s.team device key s.governance.scopes;
          activations = refl;
          mode = refl;
          epoch = refl;
          state = refl;
        }),
      )
    ]

checked :
    (members : List Membership) (now : ℕ) (device : Device) (key : String) (user : User)
    (s : ControlState) {a : Activation}
    → (activate_checked members now device key user s).0 ≡ ok a
    → IsEntitled members device key user s
      × IsInstalled now device key s (activate_checked members now device key user s).1
unfolding activate_checked
checked members now device key user s {a} h =
    let passed : activate_checked members now device key user s
        ≡ write_activation now device key s =
      ground arith in
    let (free, installed) = written now device key s {a = a} (rw passed at h) in
    (
      record {
        administrator = ground arith;
        ready = ground arith;
        commissioned = ground arith;
        listed = ground arith;
        envelope = ground arith;
        policy = ground arith;
        acknowledged = ground arith;
        first = free;
      },
      rw passed installed,
    )

kept_ok {ℓ} :
    {S : Type ℓ} (r : Result Activation) (old new : S) {a : Activation}
    → r ≡ ok a
    → kept r old new ≡ new
kept_ok (ok a) old new h = refl
kept_ok (denied d) old new h = cc
kept_ok integrity_error old new h = cc
kept_ok does_not_exist old new h = cc

-- A key is activated only by an administrator, with an assessment that is ready, in a completed
-- session that lists the key, with an active envelope, an enabled policy and an acknowledged bundle
-- of the epoch, and only once in an epoch. Afterwards the tables hold an enabled scope for exactly this key and the new activation, the team is
-- under control in its epoch, and the assessment is active.
pub activate_sound :
    (members : List Membership) (now : ℕ) (device : Device) (key : String) (user : User)
    (s : ControlState) {a : Activation}
    → (activate_control_key members now device key user s).0 ≡ ok a
    → IsEntitled members device key user s
      × IsInstalled now device key s (activate_control_key members now device key user s).1
unfolding activate_control_key
activate_sound members now device key user s {a} h =
    let (entitled, installed) = checked members now device key user s {a = a} h in
    (entitled, rw (kept_ok _ s _ {a = a} h) installed)
