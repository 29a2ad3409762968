-- ===== src/Tests.antt =====
-- Concrete runs of the models.
pub mod Fixtures
pub mod Runs
pub mod Stops
pub mod Requests
pub mod Values
pub mod Gateways
pub mod Responses
pub mod Alarms
pub mod Releases
pub mod Plans
pub mod Deliveries
