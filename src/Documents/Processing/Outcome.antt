-- ===== src/Documents/Processing/Outcome.antt =====
-- What a run of `process_document` leaves in the database.
use multi_tenant_data_chat_p.Shared.{
  ℕ, ◌≡◌, not, Option, none, some, List, map, filter_by, length, ok, nat_eq,
}
use multi_tenant_data_chat_p.Shared.Text.{Text, text}
use multi_tenant_data_chat_p.Models.{User}
use multi_tenant_data_chat_p.Documents.Chunker.{
  ExtractedDocument, TextChunk, chunk_extracted_document,
}
use multi_tenant_data_chat_p.Documents.Processing.{
  KnowledgeBase, Document, DocumentChunk, Files, is_chunk_of,
}

module _ (download_bytes : Text → Option (List ℕ))
    (extract_document_text : List ℕ → Text → Option ExtractedDocument) where
  -- A piece as it is to be stored: under the keys of the user's tenant, the knowledge base and the
  -- document, with every field of the piece and without an embedding.
  abbrev pub stored_piece : User → KnowledgeBase → Document → TextChunk → DocumentChunk
  stored_piece user k d c = record {
    tenant_id = user.tenant_id;
    knowledge_base_id = k.id;
    document_id = d.id;
    chunk_index = c.chunk_index;
    content = c.content;
    token_count = c.token_count;
    page_number = c.page_number;
    section_title = c.section_title;
    chunk_metadata = c.metadata;
    embedding = none;
  }

  -- What a successful run has done.
  pub record IsChunked (user : User) (document_id : ℕ) (files files' : Files) (d : Document)
      : Type 0 where
    pub knowledge_base : KnowledgeBase
    pub own_base : knowledge_base.tenant_id ≡ user.tenant_id
    pub own_document : d.tenant_id ≡ user.tenant_id
    pub requested : d.id ≡ document_id
    pub of_base : d.knowledge_base_id ≡ knowledge_base.id
    pub content : List ℕ
    pub downloaded : download_bytes d.storage_key ≡ some content
    pub extracted : ExtractedDocument
    pub read : extract_document_text content d.file_extension ≡ some extracted
    pub pieces : List TextChunk
    pub split :
        chunk_extracted_document extracted knowledge_base.chunk_size knowledge_base.chunk_overlap
        ≡ ok pieces
    pub marked : d.status ≡ text "chunked"
    pub pages : d.page_count ≡ extracted.page_count
    pub chunks_of_document :
        filter_by (is_chunk_of d) files'.chunks ≡ map (stored_piece user knowledge_base d) pieces
    pub all_counted : d.chunk_count ≡ length (filter_by (is_chunk_of d) files'.chunks)
    pub other_chunks :
        filter_by (λ c. not (is_chunk_of d c)) files'.chunks
        ≡ filter_by (λ c. not (is_chunk_of d c)) files.chunks

  -- How the pieces of a document are found.
  abbrev IsRead : KnowledgeBase → Document → ExtractedDocument × List TextChunk → Type 0
  IsRead k d r =
      (content : List ℕ) × (download_bytes d.storage_key ≡ some content)
      × (extract_document_text content d.file_extension ≡ some r.0)
      × (chunk_extracted_document r.0 k.chunk_size k.chunk_overlap ≡ ok r.1)
