-- ===== src/Users.antt =====
-- users/: memberships, action codes and permission checks.
pub mod PermissionCode
pub mod PermissionSets
pub mod Models
pub mod Permissions
pub mod Access
mod Tests
