-- ===== src/Permission.antt =====
-- src/permission: roles, share scopes, document names, role resolution and the permission epoch.
pub mod Role
pub mod Share
pub mod Name
pub mod Resolve
pub mod Epoch
