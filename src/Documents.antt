-- ===== src/Documents.antt =====
-- services/document: the chunks of a document.
pub mod Chunker
pub mod Processing
