-- ===== src/Teams/Roles.antt =====
-- apps/teams/roles.py: the permission map and the checks of a user's access to a team.
pub mod Access
use novena_hub.Prelude.{
  ℕ, Bool, true, false, not, ◌&&◌, ◌||◌, Option, none, some, List, [], ◌∷◌, String, str_eq, ◌==◌,
  if◌then◌else◌, find?, any, contains,
}
use novena_hub.Teams.Types.{Team, User, SiteAccess, Membership}

abbrev pub role_owner : String
role_owner = "owner"

abbrev pub role_admin : String
role_admin = "admin"

abbrev pub role_manager : String
role_manager = "manager"

abbrev pub role_operator : String
role_operator = "operator"

abbrev pub role_viewer : String
role_viewer = "viewer"

abbrev everyone : List String
everyone = role_owner ∷ role_admin ∷ role_manager ∷ role_operator ∷ role_viewer ∷ []

abbrev down_to_operator : List String
down_to_operator = role_owner ∷ role_admin ∷ role_manager ∷ role_operator ∷ []

abbrev down_to_manager : List String
down_to_manager = role_owner ∷ role_admin ∷ role_manager ∷ []

abbrev pub administrators : List String
administrators = role_owner ∷ role_admin ∷ []

-- `PERMISSIONS`
unfoldable pub permissions : List (String × List String)
permissions =
    ("view_dashboard", everyone)
    ∷ ("manage_devices", down_to_manager)
    ∷ ("view_devices", everyone)
    ∷ ("manage_alerts", down_to_manager)
    ∷ ("acknowledge_alerts", down_to_operator)
    ∷ ("send_commands", down_to_manager)
    ∷ ("send_critical_commands", administrators)
    ∷ ("view_command_audit", down_to_operator)
    ∷ ("request_low_risk_commands", down_to_operator)
    ∷ ("request_high_risk_commands", down_to_manager)
    ∷ ("request_critical_commands", administrators)
    ∷ ("approve_high_risk_commands", down_to_manager)
    ∷ ("approve_critical_commands", administrators)
    ∷ ("manage_command_policies", administrators)
    ∷ ("manage_commissioned_limits", administrators)
    ∷ ("perform_commissioning", down_to_manager)
    ∷ ("toggle_remote_control", administrators)
    ∷ ("export_command_audit", down_to_manager)
    ∷ ("manage_automations", down_to_manager)
    ∷ ("view_automations", down_to_manager)
    ∷ ("manage_team", administrators)
    ∷ ("delete_team", role_owner ∷ [])
    ∷ ("manage_billing", role_owner ∷ [])
    ∷ ("manage_shared_links", down_to_manager)
    ∷ ("manage_maintenance", down_to_manager)
    ∷ ("view_maintenance", everyone)
    ∷ ("view_business_impact", everyone)
    ∷ ("manage_business_impact", down_to_manager)
    ∷ ("manage_impact_reports", administrators)
    ∷ ("download_impact_reports", everyone)
    ∷ []

-- `PERMISSIONS.get(permission, [])`
pub roles_in : List (String × List String) → String → List String
roles_in [] permission = []
roles_in ((name, roles) ∷ rest) permission =
    if str_eq name permission then roles else roles_in rest permission

unfoldable pub roles_of : String → List String
unfolding permissions roles_in
roles_of permission = roles_in permissions permission

-- `Membership.objects.get(user=user, team=team)`; the table holds at most one such row.
unfoldable pub membership_of : List Membership → User → Team → Option Membership
membership_of rows user team = find? (λ m. (m.user == user.pk) && (m.team == team.pk)) rows

-- `getattr(team, "status", None) == "closed"`
abbrev pub is_closed : Team → Bool
is_closed team = str_eq team.status "closed"

unfoldable pub is_member : List Membership → User → Option Team → Bool
unfolding membership_of
is_member rows user none = false
is_member rows user (some team) =
    if is_closed team then false else any (λ m. (m.user == user.pk) && (m.team == team.pk)) rows

unfoldable pub is_admin : List Membership → User → Option Team → Bool
is_admin rows user none = false
is_admin rows user (some team) =
    if is_closed team
    then false
    else any (λ m. (m.team == team.pk) && ((m.user == user.pk) && contains administrators m.role))
        rows

-- `membership.site_access.filter(site=site, team=team).exists()`
abbrev pub may_enter : List SiteAccess → ℕ → Team → Bool
may_enter access site team = any (λ a. (a.site == site) && (a.team == team.pk)) access

-- `membership.site_access.exists()`
abbrev pub restricted : List SiteAccess → Bool
restricted [] = false
restricted (_ ∷ _) = true

unfoldable pub site_allowed : Membership → Option ℕ → Team → Bool
site_allowed m none team = true
site_allowed m (some site) team =
    if restricted m.site_access then may_enter m.site_access site team else true

unfoldable pub membership_allows : Option Membership → String → Option ℕ → Team → Bool
unfolding roles_of site_allowed
membership_allows none permission site team = false
membership_allows (some m) permission site team =
    if contains (roles_of permission) m.role then site_allowed m site team else false

unfoldable pub has_permission : List Membership → User → Option Team → String → Option ℕ → Bool
unfolding membership_allows membership_of
has_permission rows user none permission site = false
has_permission rows user (some team) permission site =
    if not user.is_authenticated
    then false
    else if is_closed team
    then false
    else membership_allows (membership_of rows user team) permission site team
