-- ===== src/Workspace.antt =====
-- backend/app/workspace_services.py: workspaces, their members and their invitations.
pub mod Store
pub mod Access
pub mod Invitations
pub mod Governed
pub mod Roles
pub mod Found
pub mod Once
pub mod Invited
pub mod Samples
mod Tests
