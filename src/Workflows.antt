-- ===== src/Workflows.antt =====
-- app/modules/workflows: rules that run actions when an event's payload meets their conditions.
pub mod Conditions
pub mod Engine
pub mod Rules
pub mod Templates
pub mod Actions
pub mod Triggers
