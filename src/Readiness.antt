-- ===== src/Readiness.antt =====
-- apps/devices/control_readiness.py and control_recovery.py: the way to governed control of a key,
-- the approval of a command, and the ways back to monitoring.
pub mod Types
pub mod Assessment
pub mod Activate
pub mod Approve
pub mod Suspend
