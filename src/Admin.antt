-- ===== src/Admin.antt =====
-- frontend/src/components/admin: the tabs in which an administrator edits a list of names.
pub mod Names
pub mod Ranks
pub mod LeaveTypes
pub mod Toggle
