-- ===== src/RemoteControl.antt =====
-- apps/devices: governed remote control of gateways and devices.
pub mod Types
pub mod Catalog
pub mod Protocol
pub mod Events
pub mod Transition
pub mod Governance
pub mod Revalidation
pub mod Dispatch
pub mod Lifecycle
pub mod Request
pub mod Response
