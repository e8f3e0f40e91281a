-- ===== src/Tests/Uploads.antt =====
-- A document that is chunked, and one whose content is lost.
use multi_tenant_data_chat_p.Shared.{
  ℕ, ◌≡◌, refl, true, none, some, Option, List, [], ◌∷◌, err, nat_eq,
}
use multi_tenant_data_chat_p.Shared.Text.{Text, text}
use multi_tenant_data_chat_p.Values.{pos, int, field, end}
use multi_tenant_data_chat_p.Models.{User}
use multi_tenant_data_chat_p.Documents.Chunker.{ExtractedDocument}
use multi_tenant_data_chat_p.Documents.Processing.{
  KnowledgeBase, Document, DocumentChunk, Files, Commits, not_processed, find_knowledge_base,
  get_document_by_id, save_document, with_document, marked_failed, mark_document_failed,
  read_chunks, finish_document, found_document, process_document,
}
use multi_tenant_data_chat_p.Documents.Processing.Failure.{process_document-keeps_chunks}

abbrev uploader : User
uploader = record { id = 1; tenant_id = 7; is_tenant_admin = true }

abbrev handbook : KnowledgeBase
handbook = record { id = 2; tenant_id = 7; chunk_size = pos 8; chunk_overlap = pos 4 }

abbrev pending_note : Document
pending_note = record {
  id = 3;
  tenant_id = 7;
  knowledge_base_id = 2;
  storage_key = text "note";
  file_extension = text "txt";
  status = text "pending";
  page_count = none;
  chunk_count = 0;
}

abbrev chunk_of : ℕ → ℕ → Text → DocumentChunk
chunk_of document_id n content = record {
  tenant_id = 7;
  knowledge_base_id = 2;
  document_id = document_id;
  chunk_index = n;
  content = content;
  token_count = 1;
  page_number = none;
  section_title = none;
  chunk_metadata = field (text "section_chunk_index") (int (pos n)) end;
  embedding = none;
}

-- The note has an old chunk, and another document has one.
abbrev before : Files
before = record {
  knowledge_bases = handbook ∷ [];
  documents = pending_note ∷ [];
  chunks = chunk_of 3 0 (text "old") ∷ chunk_of 4 0 (text "other") ∷ [];
}

abbrev chunked_note : Document
chunked_note = record pending_note { status = text "chunked"; chunk_count = 2 }

abbrev chunked_files : Files
chunked_files = record {
  knowledge_bases = handbook ∷ [];
  documents = chunked_note ∷ [];
  chunks = chunk_of 4 0 (text "other") ∷ chunk_of 3 0 (text "one") ∷ chunk_of 3 1 (text "two") ∷ [];
}

abbrev all_accepted : Commits
all_accepted = record {
  saves_processing = true;
  saves_chunks = true;
  saves_failed = true;
  saves_chunked = true;
}

abbrev stored_bytes : Text → Option (List ℕ)
stored_bytes key = some (text "one  two")

abbrev lost_bytes : Text → Option (List ℕ)
lost_bytes key = none

abbrev one_section : List ℕ → Text → Option ExtractedDocument
one_section content extension = some (record {
  sections =
      record { text = text "one     two"; page_number = none; section_title = none; metadata = end }
      ∷ [];
  page_count = none;
})

abbrev failed_files : Files
failed_files = record before { documents = record pending_note { status = text "failed" } ∷ [] }

failed_run :
    process_document lost_bytes one_section all_accepted uploader 2 3 before
    ≡ (failed_files, err not_processed)
unfolding process_document found_document find_knowledge_base get_document_by_id with_document
    save_document read_chunks finish_document mark_document_failed marked_failed nat_eq
failed_run = refl

process_document-keeps_chunks_example : failed_files.chunks ≡ before.chunks
process_document-keeps_chunks_example =
    process_document-keeps_chunks lost_bytes one_section all_accepted uploader 2 3 before
      failed_files not_processed failed_run (λ e. cc)
