-- ===== src/Readiness/Types.antt =====
-- The rows of the readiness tables, and the results of operations that may refuse.
use novena_hub.Prelude.{ℕ, Bool, true, false, String, Option, List}
use novena_hub.Json.{Fields}
use novena_hub.RemoteControl.Types.{Denial}

-- What an operation raises: `ReadinessDenied`, the `IntegrityError` of a unique constraint, or the
-- `DoesNotExist` of a query.
pub data Result {ℓ} (A : Type ℓ) : Type ℓ where
  ok : A → Result A
  denied : Denial → Result A
  integrity_error does_not_exist : Result A

abbrev pub deny_with {ℓ} : {A : Type ℓ} → String → String → Result A
deny_with code message = denied (record { code = code; message = message })

abbrev pub kept {ℓ κ} : {S : Type ℓ} {A : Type κ} → Result A → S → S → S
kept (ok a) old new = new
kept (denied d) old new = old
kept integrity_error old new = old
kept does_not_exist old new = old

-- `@transaction.atomic`: what the body has written is kept only if it raises nothing.
unfoldable pub atomic {ℓ κ} : {S : Type ℓ} {A : Type κ} → (S → Result A × S) → S → Result A × S
atomic body s = let (r, s') = body s in (r, kept r s s')

-- `ControlReadinessAssessment.State`
pub data AssessmentState : Type 0 where
  monitoring_only evidence_collecting ready_for_commissioning commissioning : AssessmentState
  ready_for_activation active suspended recommissioning_required : AssessmentState

-- `ControlReadinessAssessment`; the two decimals are counted in hundredths.
pub record Assessment : Type 0 where
  pub team : ℕ
  pub site : Option ℕ
  pub gateway : ℕ
  pub state : AssessmentState
  pub observation_days : ℕ
  pub telemetry_coverage_percent : ℕ
  pub evidence : Fields
  pub blockers : List String
  pub waiver_reason : String
  pub waiver_approved_by : Option ℕ
  pub assessed_by : ℕ

-- `ControlCommissioningSession.Status`
pub data SessionStatus : Type 0 where
  opened completed expired cancelled : SessionStatus

-- An entry of `session.scope["controls"]`.
pub record ControlKey : Type 0 where
  pub device_id : ℕ
  pub command_key : String

-- `ControlCommissioningSession`
pub record Session : Type 0 where
  pub team : ℕ
  pub site : Option ℕ
  pub gateway : ℕ
  pub commissioner : ℕ
  pub controls : List ControlKey
  pub evidence : Fields
  pub status : SessionStatus
  pub expires_at : ℕ
  pub completed_at : Option ℕ

-- `GatewayControlPolicyBundle`, as far as activation reads it.
pub record PolicyBundle : Type 0 where
  pub gateway : ℕ
  pub revision : ℕ
  pub control_epoch : ℕ
  pub is_active : Bool
  pub acknowledged_at : Option ℕ

abbrev pub is_ready_for_commissioning : AssessmentState → Bool
is_ready_for_commissioning AssessmentState.ready_for_commissioning = true
is_ready_for_commissioning _ = false

abbrev pub is_commissioning : AssessmentState → Bool
is_commissioning AssessmentState.commissioning = true
is_commissioning _ = false

abbrev pub is_ready_for_activation : AssessmentState → Bool
is_ready_for_activation AssessmentState.ready_for_activation = true
is_ready_for_activation _ = false

abbrev pub is_open : SessionStatus → Bool
is_open SessionStatus.opened = true
is_open _ = false

abbrev pub is_completed : SessionStatus → Bool
is_completed SessionStatus.completed = true
is_completed _ = false
