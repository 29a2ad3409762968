-- ===== src/Gateways.antt =====
-- apps/devices: the claim, the settings and the release of a Gateway.
pub mod Types
pub mod Delivery
pub mod Release
