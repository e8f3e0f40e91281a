-- ===== src/Execution.antt =====
-- services/database/query_executor.py and secure_query_service.py: running a secured query.
pub mod Serialize
pub mod Masks
pub mod Records
pub mod Connect
pub mod Executor
pub mod SecureQuery
