-- ===== src/Readiness/Assessment/Ready.antt =====
-- apps/devices/control_readiness.py: proofs on `assess_control_readiness`.
use novena_hub.Prelude.{
  ◌*◌, ◌≤◌, ◌≡◌, ◌⊎◌, inl, inr, refl, true, false, String, some, List, [], ◌∷◌, ◌++◌, arith,
  Bool-cases, any, is_some,
}
use novena_hub.Teams.Types.{Team, User, Membership}
use novena_hub.Teams.Roles.{has_permission}
use novena_hub.RemoteControl.Types.{Gateway, Device}
use novena_hub.Readiness.Types.{ok, AssessmentState, Assessment}
use novena_hub.Readiness.Assessment.{
  Evidence, evidence_blockers, gateway_blockers, waives, is_empty, state_for, assess,
  assess_control_readiness,
}

-- The Gateway speaks the protocol and is prepared for the team's epoch, with a device to control.
pub record IsPrepared (g : Gateway) (team : Team) (devices : List Device) : Type 0 where
  pub version : 1 ≤ g.remote_control_protocol_version
  pub writeback : g.remote_control_local_writeback_enabled ≡ true
  pub loaded : g.remote_control_policy_loaded ≡ true
  pub epoch : g.remote_control_epoch ≡ team.remote_control_epoch
  pub clock : g.remote_control_clock_ready ≡ true
  pub journal : g.remote_control_journal_ready ≡ true
  pub mapped : any (λ d. is_some d.template_id) devices ≡ true

-- A week of monitoring at 95 % coverage.
abbrev pub IsObserved : Evidence → Type 0
IsObserved e = (7 * 100 ≤ e.observation_days) × (95 * 100 ≤ e.telemetry_coverage_percent)

prepared :
    (g : Gateway) (team : Team) (devices : List Device)
    → gateway_blockers g team devices ≡ []
    → IsPrepared g team devices
unfolding gateway_blockers
prepared g team devices h = record {
  version = ground arith;
  writeback = ground arith;
  loaded = ground arith;
  epoch = ground arith;
  clock = ground arith;
  journal = ground arith;
  mapped = ground arith;
}

observed :
    (e : Evidence)
    → evidence_blockers e.observation_days e.telemetry_coverage_percent ≡ []
    → IsObserved e
unfolding evidence_blockers
observed e h = (ground arith, ground arith)

append_nil_right : (xs ys : List String) → xs ++ ys ≡ [] → ys ≡ []
append_nil_right [] ys h = h
append_nil_right (x ∷ xs) ys h = cc

empty_nil : (xs : List String) → is_empty xs ≡ true → xs ≡ []
empty_nil [] h = refl
empty_nil (x ∷ xs) h = cc

ready_nil : (xs : List String) → state_for xs ≡ AssessmentState.ready_for_commissioning → xs ≡ []
ready_nil [] h = refl
ready_nil (x ∷ xs) h = cc

empty_false : (xs : List String) → is_empty xs ≡ false → xs ≡ [] → ⊥
empty_false xs h e = ground arith

assess_ready :
    (members : List Membership) (user : User) (team : Team) (g : Gateway) (devices : List Device)
    (e : Evidence)
    → (assess members user team g devices e).state ≡ AssessmentState.ready_for_commissioning
    → IsPrepared g team devices × (IsObserved e ⊎ (waives members user team g e ≡ true))
unfolding assess
assess_ready members user team g devices e h =
    elim (Bool-cases
      (is_empty (evidence_blockers e.observation_days e.telemetry_coverage_percent))) [
        | inl enough ↦ (
          prepared g team devices (ready_nil _ (rw enough at h)),
          inl (observed e (empty_nil _ enough)),
        )
        | inr lacking ↦ elim (Bool-cases (waives members user team g e)) [
          | inl waived ↦
              (prepared g team devices (ready_nil _ (rw (lacking, waived) at h)), inr waived)
          | inr kept ↦
              let both =
                ready_nil
                  (gateway_blockers g team devices
                    ++ evidence_blockers e.observation_days e.telemetry_coverage_percent)
                  (rw (lacking, kept) at h) in
              absurd
                (empty_false _ lacking (append_nil_right (gateway_blockers g team devices) _ both))
        ]
      ]

-- An assessment that finds a Gateway ready was made by a user who may commission at its site, of a
-- Gateway that is prepared for the epoch of the team, and either on seven days of monitoring at 95 %
-- coverage or on a waiver.
pub ready_is_earned :
    (members : List Membership) (user : User) (team : Team) (g : Gateway) (devices : List Device)
    (e : Evidence) {a : Assessment}
    → assess_control_readiness members user team g devices e ≡ ok a
    → a.state ≡ AssessmentState.ready_for_commissioning
    → (has_permission members user (some team) "perform_commissioning" g.site ≡ true)
      × IsPrepared g team devices
      × (IsObserved e ⊎ (waives members user team g e ≡ true))
unfolding assess_control_readiness
ready_is_earned members user team g devices e {a} h ready =
    elim (Bool-cases (has_permission members user (some team) "perform_commissioning" g.site)) [
      | inr refused ↦ ground arith
      | inl may ↦
          let made : assess members user team g devices e ≡ a = ground arith in
          let (p, o) = assess_ready members user team g devices e (rw made ready) in (may, p, o)
    ]
