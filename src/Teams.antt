-- ===== src/Teams.antt =====
-- apps/teams: the team row, its members and their roles.
pub mod Roles
pub mod Types
