-- ===== src/Documents/Processing.antt =====
-- services/document/document_processor.py over repositories/documents.py. The object storage is a
-- parameter, and so is the extraction of text, whose formats belong to other libraries. The message for
-- people, `processing_message`, is left out.
pub mod Selection
pub mod Outcome
pub mod Failure
use multi_tenant_data_chat_p.Shared.{
  ℕ, ◌&&◌, Bool, true, false, not, Option, none, some, List, [], ◌∷◌, ◌++◌, map, filter_by, length,
  Result, ok, err, ◌>>=◌, ◌>>◌, raise_if, or_raise, ◌==◌, nat_eq, if◌then◌else◌,
}
use multi_tenant_data_chat_p.Shared.Text.{Text, text}
use multi_tenant_data_chat_p.Values.{ℤ, Fields}
use multi_tenant_data_chat_p.Models.{User}
use multi_tenant_data_chat_p.Documents.Chunker.{
  ExtractedDocument, TextChunk, TextChunkingError, chunk_extracted_document,
}

-- models/knowledge_base.py, with the columns that processing reads or writes.
pub record KnowledgeBase : Type 0 where
  pub id : ℕ
  pub tenant_id : ℕ
  pub chunk_size : ℤ
  pub chunk_overlap : ℤ

pub record Document : Type 0 where
  pub id : ℕ
  pub tenant_id : ℕ
  pub knowledge_base_id : ℕ
  pub storage_key : Text
  pub file_extension : Text
  pub status : Text
  pub page_count : Option ℤ
  pub chunk_count : ℕ

pub record DocumentChunk : Type 0 where
  pub tenant_id : ℕ
  pub knowledge_base_id : ℕ
  pub document_id : ℕ
  pub chunk_index : ℕ
  pub content : Text
  pub token_count : ℕ
  pub page_number : Option ℤ
  pub section_title : Option Text
  pub chunk_metadata : Fields
  pub embedding : Option (List ℕ)

pub record Files : Type 0 where
  pub knowledge_bases : List KnowledgeBase
  pub documents : List Document
  pub chunks : List DocumentChunk

-- Which of the four commits of a run the database accepts; a refusal is a `SQLAlchemyError`.
pub record Commits : Type 0 where
  pub saves_processing : Bool
  pub saves_chunks : Bool
  pub saves_failed : Bool
  pub saves_chunked : Bool

-- What leaves `process_document`; `database_error` is a `SQLAlchemyError` that is not caught.
pub data ProcessingError : Type 0 where
  administrator_required knowledge_base_not_found document_not_found : ProcessingError
  not_processed database_error : ProcessingError

unfoldable pub find_knowledge_base : List KnowledgeBase → ℕ → ℕ → Option KnowledgeBase
find_knowledge_base [] tenant_id id = none
find_knowledge_base (k ∷ ks) tenant_id id =
    let rest = find_knowledge_base ks tenant_id id in
    if k.id == id && k.tenant_id == tenant_id then some k else rest

unfoldable pub get_document_by_id : List Document → ℕ → ℕ → ℕ → Option Document
get_document_by_id [] tenant_id knowledge_base_id id = none
get_document_by_id (d ∷ ds) tenant_id knowledge_base_id id =
    let rest = get_document_by_id ds tenant_id knowledge_base_id id in
    if d.id == id && (d.tenant_id == tenant_id && d.knowledge_base_id == knowledge_base_id)
    then some d
    else rest

unfoldable pub save_document : Document → List Document → List Document
save_document d [] = []
save_document d (e ∷ es) = (if e.id == d.id then d else e) ∷ save_document d es

unfoldable pub with_document : Document → Files → Files
unfolding save_document
with_document d files = record files { documents = save_document d files.documents }

unfoldable pub is_chunk_of : Document → DocumentChunk → Bool
is_chunk_of d c =
    c.tenant_id == d.tenant_id
    && (c.knowledge_base_id == d.knowledge_base_id && c.document_id == d.id)

unfoldable pub replace_document_chunks : Document → List DocumentChunk → Files → Files
replace_document_chunks d new files = record files {
  chunks = filter_by (λ c. not (is_chunk_of d c)) files.chunks ++ new;
}

unfoldable pub chunk_record : User → KnowledgeBase → Document → TextChunk → DocumentChunk
chunk_record user k d c = record {
  tenant_id = user.tenant_id;
  knowledge_base_id = k.id;
  document_id = d.id;
  chunk_index = c.chunk_index;
  content = c.content;
  token_count = c.token_count;
  page_number = c.page_number;
  section_title = c.section_title;
  chunk_metadata = c.metadata;
  embedding = none;
}

unfoldable pub marked_failed : Document → Document
marked_failed d = record d { status = text "failed"; page_count = none; chunk_count = 0 }

-- `mark_document_failed`: a refused commit is rolled back and ignored.
unfoldable pub mark_document_failed : Commits → Document → Files → Files
unfolding with_document marked_failed
mark_document_failed commits d files =
    if commits.saves_failed then with_document (marked_failed d) files else files

-- The content and the extraction; `none` is an `ObjectStorageError` or `DocumentExtractionError`.
module _ (download_bytes : Text → Option (List ℕ))
    (extract_document_text : List ℕ → Text → Option ExtractedDocument) where
  -- The part of the `try` before the database is written: what is extracted, and its chunks.
  unfoldable pub read_chunks :
      KnowledgeBase → Document → Option (ExtractedDocument × List TextChunk)
  unfolding chunk_extracted_document
  read_chunks k d = elim (download_bytes d.storage_key) [
    | none ↦ none
    | some content ↦ elim (extract_document_text content d.file_extension) [
      | none ↦ none
      | some extracted ↦ elim (chunk_extracted_document extracted k.chunk_size k.chunk_overlap) [
        | err e ↦ none
        | ok chunks ↦ some (extracted, chunks)
      ]
    ]
  ]

  -- From the saved status `processing` on.
  unfoldable pub finish_document :
      Commits
      → User
      → KnowledgeBase
      → Document
      → Files
      → Option (ExtractedDocument × List TextChunk)
      → Files × Result ProcessingError Document
  unfolding mark_document_failed replace_document_chunks chunk_record with_document
  finish_document commits user k d files none =
      (mark_document_failed commits d files, err not_processed)
  finish_document commits user k d files (some (extracted, chunks)) =
      if not commits.saves_chunks
      then (mark_document_failed commits d files, err not_processed)
      else (let stored = replace_document_chunks d (map (chunk_record user k d) chunks) files in
          let chunked : Document = record d {
            status = text "chunked";
            page_count = extracted.page_count;
            chunk_count = length chunks;
          } in
          if commits.saves_chunked
          then (with_document chunked stored, ok chunked)
          else (stored, err database_error))

  unfoldable pub found_document :
      User → ℕ → ℕ → Files → Result ProcessingError (KnowledgeBase × Document)
  unfolding find_knowledge_base get_document_by_id
  found_document user knowledge_base_id document_id files = do
    raise_if (not user.is_tenant_admin) administrator_required
    k ←
        or_raise (find_knowledge_base files.knowledge_bases user.tenant_id knowledge_base_id)
          knowledge_base_not_found
    d ←
        or_raise (get_document_by_id files.documents user.tenant_id knowledge_base_id document_id)
          document_not_found
    ok (k, d)

  unfoldable pub process_document :
      Commits → User → ℕ → ℕ → Files → Files × Result ProcessingError Document
  unfolding with_document
  process_document commits user knowledge_base_id document_id files =
      elim (found_document user knowledge_base_id document_id files) [
        | err e ↦ (files, err e)
        | ok (k, d) ↦
            (let processing : Document = record d { status = text "processing" } in
              if not commits.saves_processing
              then (files, err database_error)
              else finish_document commits user k processing (with_document processing files)
                  (read_chunks k processing))
      ]
