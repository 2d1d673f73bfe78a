-- ===== src/Access.antt =====
-- frontend/src/components/RenderOnAdminRole.tsx, with `checkRolesAdminUser` of
-- components/tornjak-helper.tsx: what is shown without the admin role.
pub mod Roles
mod Tests
