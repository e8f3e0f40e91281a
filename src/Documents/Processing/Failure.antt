-- ===== src/Documents/Processing/Failure.antt =====
-- What a failed run of `process_document` leaves in the database.
use multi_tenant_data_chat_p.Shared.{
  ℕ, ◌≡◌, ◌≢◌, refl, sym, ap, ◌∙◌, Bool, true, false, not, Option, none, some, List, map, Result,
  ok, err, if◌then◌else◌, length,
}
use multi_tenant_data_chat_p.Shared.Text.{Text, text}
use multi_tenant_data_chat_p.Models.{User}
use multi_tenant_data_chat_p.Documents.Chunker.{ExtractedDocument, TextChunk}
use multi_tenant_data_chat_p.Documents.Processing.{
  KnowledgeBase, Document, Files, Commits, ProcessingError, with_document, replace_document_chunks,
  chunk_record, marked_failed, mark_document_failed, read_chunks, finish_document, found_document,
  process_document, not_processed, database_error,
}

err_inj :
    {a b : ProcessingError} → ◌≡◌ {A = Result ProcessingError Document} (err a) (err b) → a ≡ b
err_inj e = cc

module _ (commits : Commits) where
  mark_document_failed-chunks :
      (d : Document) (files : Files) → (mark_document_failed commits d files).chunks ≡ files.chunks
  unfolding mark_document_failed with_document
  mark_document_failed-chunks d files = guarded commits.saves_failed
    where
      guarded :
          (b : Bool)
          → (let x : Files = if b then with_document (marked_failed d) files else files in x.chunks)
            ≡ files.chunks
      guarded true = refl
      guarded false = refl

module _ (download_bytes : Text → Option (List ℕ))
    (extract_document_text : List ℕ → Text → Option ExtractedDocument) where
  finish_document-chunks :
      (commits : Commits) (user : User) (k : KnowledgeBase) (d : Document) (files : Files)
      (o : Option (ExtractedDocument × List TextChunk)) (e : ProcessingError)
      → (finish_document download_bytes extract_document_text commits user k d files o).1 ≡ err e
      → e ≢ database_error
      → (finish_document download_bytes extract_document_text commits user k d files o).0.chunks
        ≡ files.chunks
  unfolding finish_document
  finish_document-chunks commits user k d files none e h n =
      mark_document_failed-chunks commits d files
  finish_document-chunks commits user k d files (some (extracted, pieces)) e h n =
      committed commits.saves_chunks commits.saves_chunked h
    where
      stored : Files
      stored = replace_document_chunks d (map (chunk_record user k d) pieces) files

      chunked : Document
      chunked = record d {
        status = text "chunked";
        page_count = extracted.page_count;
        chunk_count = length pieces;
      }

      run : Bool → Bool → Files × Result ProcessingError Document
      run saves_chunks saves_chunked =
          if not saves_chunks
          then (mark_document_failed commits d files, err not_processed)
          else (if saves_chunked
              then (with_document chunked stored, ok chunked)
              else (stored, err database_error))

      committed :
          (saves_chunks saves_chunked : Bool)
          → (run saves_chunks saves_chunked).1 ≡ err e
          → (run saves_chunks saves_chunked).0.chunks ≡ files.chunks
      committed false _ h = mark_document_failed-chunks commits d files
      committed true false h = absurd (n (sym (err_inj h)))
      committed true true h = cc

  -- A run that raises anything but an uncaught database error leaves every stored chunk as it was,
  -- those of the document too: its new count of 0 is then not the number of its chunks if it had
  -- been chunked before.
  pub process_document-keeps_chunks :
      (commits : Commits) (user : User) (knowledge_base_id document_id : ℕ) (files files' : Files)
      (e : ProcessingError)
      → process_document download_bytes extract_document_text commits user knowledge_base_id
          document_id files
        ≡ (files', err e)
      → e ≢ database_error
      → files'.chunks ≡ files.chunks
  unfolding process_document
  process_document-keeps_chunks commits user knowledge_base_id document_id files files' e h n =
      sym (ap (λ (x : Files × Result ProcessingError Document). x.0.chunks) h)
      ∙ from_found
          (found_document download_bytes extract_document_text user knowledge_base_id document_id
            files)
          (ap (λ (x : Files × Result ProcessingError Document). x.1) h)
    where
      begin : KnowledgeBase → Document → Bool → Files × Result ProcessingError Document
      begin k d saves =
          let processing : Document = record d { status = text "processing" } in
          if not saves
          then (files, err database_error)
          else finish_document download_bytes extract_document_text commits user k processing
              (with_document processing files)
              (read_chunks download_bytes extract_document_text k processing)

      run :
          Result ProcessingError (KnowledgeBase × Document)
          → Files × Result ProcessingError Document
      run (err x) = (files, err x)
      run (ok (k, d)) = begin k d commits.saves_processing

      begun :
          (k : KnowledgeBase) (d : Document) (saves : Bool)
          → (begin k d saves).1 ≡ err e
          → (begin k d saves).0.chunks ≡ files.chunks
      begun k d false q = refl
      begun k d true q =
          let processing : Document = record d { status = text "processing" } in
          finish_document-chunks commits user k processing (with_document processing files)
            (read_chunks download_bytes extract_document_text k processing) e q n
          ∙ (unfold with_document in refl)

      from_found :
          (m : Result ProcessingError (KnowledgeBase × Document))
          → (run m).1 ≡ err e
          → (run m).0.chunks ≡ files.chunks
      from_found (err x) q = refl
      from_found (ok (k, d)) q = begun k d commits.saves_processing q
