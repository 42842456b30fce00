-- ===== src/Tests.antt =====
-- Concrete runs of the modelled code, and the theorems applied to them, one module per subsystem.
mod Traffic
mod Commerce
mod Access
mod Automation
mod Platform
mod Services
mod Modules
mod Operations
mod Requests
mod Reports
mod Actions
