-- ===== src/Auth.antt =====
-- auth/: who may do what.
pub mod Rbac
pub mod VirtualKeys
pub mod Budgets
pub mod Gate
pub mod Teams
pub mod Audit
pub mod KeyChanges
