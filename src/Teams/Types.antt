-- ===== src/Teams/Types.antt =====
-- apps/teams/models.py: the columns of a team, a membership and a user that access control reads.
use novena_hub.Prelude.{ℕ, Bool, String, List}

-- `Team.RemoteControlMode`
pub data RemoteControlMode : Type 0 where
  monitoring_only controlled locked_down : RemoteControlMode

pub record Team : Type 0 where
  pub pk : ℕ
  pub status : String
  pub remote_control_mode : RemoteControlMode
  pub remote_control_epoch : ℕ

pub record User : Type 0 where
  pub pk : ℕ
  pub is_authenticated : Bool
  pub email : String
  pub display_name : String

-- A row of `SiteMembershipAccess`.
pub record SiteAccess : Type 0 where
  pub site : ℕ
  pub team : ℕ

pub record Membership : Type 0 where
  pub user : ℕ
  pub team : ℕ
  pub role : String
  pub site_access : List SiteAccess
