-- ===== src/GroupSync.antt =====
-- pkg/groupsync: saved pane layouts that peers keep in step.
pub mod Json
pub mod Tree
pub mod Group
pub mod Store
pub mod Ops
pub mod Heal
mod Tests
