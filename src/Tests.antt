-- ===== src/Tests.antt =====
-- Concrete runs of the modelled code, on one tenant with one table and one query.
pub mod Sample
mod Query
mod Grants
mod Results
mod Chunks
mod Administration
mod Uploads
mod Logins
mod Discoveries
mod Permits
pub mod Catalog
