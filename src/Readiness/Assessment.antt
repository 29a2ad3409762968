-- ===== src/Readiness/Assessment.antt =====
-- apps/devices/control_readiness.py: the assessment of a Gateway and its commissioning session.
pub mod Ready
use novena_hub.Prelude.{
  ℕ, ◌+◌, ◌*◌, Bool, true, false, not, ◌&&◌, ◌||◌, String, Option, none, some, List, [], ◌∷◌, ◌++◌,
  ltb, leb, ◌==◌, str_eq, any, all, is_some, update_where, hours, if◌then◌else◌,
}
use novena_hub.Json.{has_key, Fields}
use novena_hub.Teams.Types.{Team, User, Membership}
use novena_hub.Teams.Roles.{has_permission}
use novena_hub.RemoteControl.Types.{Gateway, Device}
use novena_hub.Readiness.Types.{
  Result, ok, denied, integrity_error, deny_with, AssessmentState, Assessment, SessionStatus,
  Session, ControlKey, is_ready_for_commissioning, is_commissioning, is_open,
}

-- `if failed: blockers.append(text)`
abbrev pub when : Bool → String → List String → List String
when true text rest = text ∷ rest
when false text rest = rest

unfoldable pub evidence_blockers : ℕ → ℕ → List String
evidence_blockers observation_days coverage =
    when (ltb observation_days (7 * 100))
      "At least seven days of representative monitoring evidence is required."
      (when (ltb coverage (95 * 100)) "Telemetry coverage must be at least 95%." [])

-- The blockers of the Gateway, in the order in which they are appended; `devices` are its devices.
unfoldable pub gateway_blockers : Gateway → Team → List Device → List String
gateway_blockers gateway team devices =
    when (ltb gateway.remote_control_protocol_version 1)
      "Gateway does not support governed-command protocol v1."
      (when (not gateway.remote_control_local_writeback_enabled)
        "The installer-controlled local write-back switch is disabled."
        (when (not gateway.remote_control_policy_loaded)
          "Gateway has not loaded a valid retained policy."
          (when (not (gateway.remote_control_epoch == team.remote_control_epoch))
            "Gateway has not acknowledged the current control epoch."
            (when (not gateway.remote_control_clock_ready) "Gateway trusted clock is not ready." (
              when (not gateway.remote_control_journal_ready)
                "Gateway command journal is not ready."
                (when (not (any (λ d. is_some d.template_id) devices))
                  "No exact template-mapped device identity is available." []))))))

-- What a caller hands to `assess_control_readiness`.
pub record Evidence : Type 0 where
  pub observation_days : ℕ
  pub telemetry_coverage_percent : ℕ
  pub document : Fields
  pub waiver_reason : String

abbrev is_empty : List String → Bool
is_empty [] = true
is_empty (_ ∷ _) = false

abbrev state_for : List String → AssessmentState
state_for [] = AssessmentState.ready_for_commissioning
state_for (_ ∷ _) = AssessmentState.evidence_collecting

unfoldable pub waives : List Membership → User → Team → Gateway → Evidence → Bool
waives members user team gateway evidence =
    not (str_eq evidence.waiver_reason "")
    && has_permission members user (some team) "toggle_remote_control" gateway.site

unfoldable pub create_assessment :
    User → Team → Gateway → Evidence → List String → Option ℕ → Assessment
create_assessment user team gateway evidence blockers waived_by = record {
  team = gateway.team_id;
  site = gateway.site;
  gateway = gateway.pk;
  state = state_for blockers;
  observation_days = evidence.observation_days;
  telemetry_coverage_percent = evidence.telemetry_coverage_percent;
  evidence = evidence.document;
  blockers = blockers;
  waiver_reason = evidence.waiver_reason;
  waiver_approved_by = waived_by;
  assessed_by = user.pk;
}

unfoldable pub assess :
    List Membership → User → Team → Gateway → List Device → Evidence → Assessment
unfolding create_assessment
assess members user team gateway devices evidence =
    let missing = evidence_blockers evidence.observation_days evidence.telemetry_coverage_percent in
    let blockers = gateway_blockers gateway team devices in
    if is_empty missing
    then create_assessment user team gateway evidence blockers none
    else if waives members user team gateway evidence
    then create_assessment user team gateway evidence blockers (some user.pk)
    else create_assessment user team gateway evidence (blockers ++ missing) none

unfoldable pub assess_control_readiness :
    List Membership → User → Team → Gateway → List Device → Evidence → Result Assessment
unfolding assess
assess_control_readiness members user team gateway devices evidence =
    if has_permission members user (some team) "perform_commissioning" gateway.site
    then ok (assess members user team gateway devices evidence)
    else deny_with "permission_denied" "You cannot assess this site."

-- The assessment as it is saved, and the session that is created.
unfoldable pub open_commissioning_session :
    List Membership → ℕ → Team → Assessment → User → List ControlKey → Result (Assessment × Session)
open_commissioning_session members now team assessment commissioner controls =
    if not (is_ready_for_commissioning assessment.state)
    then deny_with "readiness_incomplete" "Readiness evidence has not passed."
    else if not
        (has_permission members commissioner (some team) "perform_commissioning" assessment.site)
    then deny_with "commissioner_required" "A qualified commissioner is required."
    else ok (
      record assessment { state = AssessmentState.commissioning },
      record {
        team = assessment.team;
        site = assessment.site;
        gateway = assessment.gateway;
        commissioner = commissioner.pk;
        controls = controls;
        evidence = Fields.end;
        status = SessionStatus.opened;
        expires_at = now + hours 2;
        completed_at = none;
      },
    )

abbrev pub required_evidence : List String
required_evidence =
    "equipment_identity" ∷ "operating_envelope" ∷ "interlocks" ∷ "prerequisites"
    ∷ "supervised_tests" ∷ []

-- The session as it is saved, and the assessments of its Gateway that the query updates.
unfoldable pub complete_commissioning_session :
    ℕ → ℕ → Session → Fields → List Assessment → Result (Session × List Assessment)
complete_commissioning_session now later session evidence assessments =
    if not (is_open session.status) || leb session.expires_at now
    then deny_with "commissioning_expired" "Commissioning session is closed or expired."
    else if not (all (λ k. has_key evidence k) required_evidence)
    then deny_with "commissioning_evidence_incomplete" "Commissioning evidence is incomplete."
    else ok (
      record session {
        evidence = evidence;
        status = SessionStatus.completed;
        completed_at = some later;
      },
      update_where (λ a. (a.gateway == session.gateway) && is_commissioning a.state)
          (λ a. record a { state = AssessmentState.ready_for_activation }) assessments,
    )
