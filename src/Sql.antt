-- ===== src/Sql.antt =====
-- The SQL security pipeline: validation, row filters, and both in sequence.
pub mod Sqlglot
pub mod Validator
pub mod RowFilter
pub mod Pipeline
