-- ===== src/Admin.antt =====
-- app/modules/admin/service.py and repository.py: what a super administrator may do to any account,
-- workspace, and connection. The routes call these operations after `get_current_super_admin`.
pub mod Accounts
pub mod Platform
pub mod Envelopes
pub mod Routes
pub mod Lockout
pub mod Suspension
