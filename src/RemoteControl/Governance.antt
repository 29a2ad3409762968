-- ===== src/RemoteControl/Governance.antt =====
-- apps/devices/models.py: the governing records of a control key, as far as dispatch, activation
-- and suspension read and write them.
use novena_hub.Prelude.{ℕ, Bool, true, false, String, Option, List}

-- `RemoteControlScope.Mode`
pub data ScopeMode : Type 0 where
  disabled commissioning enabled suspended : ScopeMode

-- `ControlActivation.Status`
pub data ActivationStatus : Type 0 where
  active suspended expired revoked : ActivationStatus

-- `RemoteControlScope`
pub record ControlScope : Type 0 where
  pub team : ℕ
  pub site : Option ℕ
  pub gateway : Option ℕ
  pub device : Option ℕ
  pub command_key : String
  pub mode : ScopeMode
  pub control_epoch : ℕ
  pub reason : String

-- `TemplateControlDefinition`
pub record TemplateControl : Type 0 where
  pub template : ℕ
  pub command_key : String
  pub revision : ℕ
  pub is_verified : Bool
  pub is_enabled : Bool

-- `CommissionedControlEnvelope`
pub record Commissioned : Type 0 where
  pub team : ℕ
  pub device : ℕ
  pub command_key : String
  pub revision : ℕ
  pub expires_at : Option ℕ
  pub is_active : Bool

-- `CommandPolicy`
pub record CommandPolicy : Type 0 where
  pub team : ℕ
  pub gateway : Option ℕ
  pub device : Option ℕ
  pub command_key : String
  pub revision : ℕ
  pub checksum : String
  pub is_enabled : Bool

-- `ControlActivation`, with the site and the Gateway of its device, which queries join in.
pub record Activation : Type 0 where
  pub team : ℕ
  pub device : ℕ
  pub device_site : Option ℕ
  pub device_gateway : Option ℕ
  pub command_key : String
  pub status : ActivationStatus
  pub control_epoch : ℕ
  pub expires_at : ℕ
  pub suspended_reason : String

-- The tables of governing records.
pub record Governance : Type 0 where
  pub scopes : List ControlScope
  pub definitions : List TemplateControl
  pub envelopes : List Commissioned
  pub policies : List CommandPolicy
  pub activations : List Activation

abbrev pub is_enabled_mode : ScopeMode → Bool
is_enabled_mode ScopeMode.enabled = true
is_enabled_mode _ = false

abbrev pub is_active_status : ActivationStatus → Bool
is_active_status ActivationStatus.active = true
is_active_status _ = false
