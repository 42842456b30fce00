-- ===== src/Migrations.antt =====
-- migrations/versions: one module per revision.
pub mod Operations
pub mod Phase3Tables
pub mod WorkflowsTables
pub mod SoftDelete
pub mod AuditColumns
pub mod Pgvector
pub mod AiTables
pub mod Phase10Tables
pub mod InvoicesIndex
pub mod Undo
pub mod Dependencies
pub mod Catalogue
