-- ===== src/Auth.antt =====
-- The auth module (app/modules/auth) and the security helpers of app/core/security.py.
pub mod Models
pub mod Tokens
pub mod Service
pub mod Dependencies
pub mod Revocation
pub mod Sessions
pub mod Slug
pub mod Registration
pub mod Registering
pub mod Seeding
pub mod Routes
pub mod Access
