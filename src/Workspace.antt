-- ===== src/Workspace.antt =====
-- backend/internal/workspace: roles, memberships, grants, ownership, invitations.
pub mod Role
pub mod Errors
pub mod Members
pub mod Grants
pub mod Invitations
