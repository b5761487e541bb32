-- ===== src/TaskContract.antt =====
-- src/missionforge/task_contract.py: task contracts, their clauses and revisions, and the permission
-- envelope of a role.
pub mod Workspace
pub mod ProgressStream
pub mod Extension
pub mod Manifest
pub mod Clause
pub mod Revision
pub mod Contract
pub mod Frozen
