-- ===== src/Permissions.antt =====
-- Roles and permissions (src/auth/permissions).
pub mod Guard
pub mod GuardLaws
