-- ===== src/Tests/Chunks.antt =====
-- Texts that are split.
use multi_tenant_data_chat_p.Shared.{
  ℕ, ◌≡◌, ◌≤◌, ◌<◌, ◌≢◌, ◌⊎◌, refl, false, none, ok, err, In, List, [], ◌∷◌, length, is_empty,
  nat_eq, arith,
}
use multi_tenant_data_chat_p.Shared.Text.{
  Text, text, text_eq, same_text, strip, lstrip, is_space, starts_with,
}
use multi_tenant_data_chat_p.Values.{pos, int, field, end, put_field}
use multi_tenant_data_chat_p.Documents.Chunker.{
  TextChunkingError, out_of_fuel, ExtractedDocument, TextChunk, estimate_token_count, rfind_from,
  last_boundary, boundary_positions, after_period, chunk_end, next_start, chunk_between, split_from,
  natural, positive, split_text_with_overlap, number_chunks, chunk_extracted_section,
  chunk_sections, chunk_extracted_document,
}
use multi_tenant_data_chat_p.Documents.Chunker.Search.{chunk_end-bounds}
use multi_tenant_data_chat_p.Documents.Chunker.Splitting.{IsSplit, split_text_with_overlap-IsSplit}
use multi_tenant_data_chat_p.Documents.Chunker.Indices.{
  IsNumbered, IsFrom, chunk_extracted_document-IsNumbered,
}

-- The words that overlap are repeated.
split :
    split_text_with_overlap (text " one two three ") (pos 8) (pos 4)
    ≡ ok (text "one two" ∷ text "two" ∷ text "three" ∷ [])
unfolding split_text_with_overlap positive natural strip lstrip is_space split_from chunk_end
    boundary_positions rfind_from starts_with last_boundary after_period next_start chunk_between
    nat_eq text_eq same_text
split = refl

chunk_end-bounds_example :
    (3 < chunk_end (text "one two three") 8 3)
    × (chunk_end (text "one two three") 8 3 ≤ 11)
    × (chunk_end (text "one two three") 8 3 ≤ 13)
chunk_end-bounds_example = chunk_end-bounds (text "one two three") 8 3 (omega arith) (omega arith)

split_text_with_overlap-IsSplit_example :
    ((size : ℕ) × (overlap : ℕ) × (chunks : List Text) × (pos 8 ≡ pos size)
      × (pos 4 ≡ pos overlap)
      × (overlap < size)
      × (split_text_with_overlap (text " one two three ") (pos 8) (pos 4) ≡ ok chunks)
      × IsSplit (strip (text " one two three ")) size overlap 0 chunks
      × ((c : Text) → In c chunks → (is_empty c ≡ false) × (length c ≤ size)))
    ⊎ ((e : TextChunkingError) × (split_text_with_overlap (text " one two three ") (pos 8) (pos 4)
          ≡ err e)
        × (e ≢ out_of_fuel)
        × ((size overlap : ℕ) → pos 8 ≡ pos size → pos 4 ≡ pos overlap → size ≤ overlap))
split_text_with_overlap-IsSplit_example =
    split_text_with_overlap-IsSplit (text " one two three ") (pos 8) (pos 4)

abbrev two_sections : ExtractedDocument
two_sections = record {
  sections =
      record { text = text "one two"; page_number = none; section_title = none; metadata = end }
      ∷ record { text = text "three"; page_number = none; section_title = none; metadata = end }
      ∷ [];
  page_count = none;
}

abbrev chunk_of : ℕ → Text → TextChunk
chunk_of n content = record {
  chunk_index = n;
  content = content;
  token_count = 1;
  page_number = none;
  section_title = none;
  metadata = field (text "section_chunk_index") (int (pos 0)) end;
}

abbrev two_chunks : List TextChunk
two_chunks = chunk_of 0 (text "one two") ∷ chunk_of 1 (text "three") ∷ []

chunked : chunk_extracted_document two_sections (pos 8) (pos 4) ≡ ok two_chunks
unfolding chunk_extracted_document chunk_sections chunk_extracted_section number_chunks
    estimate_token_count put_field split_text_with_overlap positive natural strip lstrip is_space
    split_from chunk_end boundary_positions rfind_from starts_with last_boundary after_period
    next_start chunk_between nat_eq text_eq same_text
chunked = refl

chunk_extracted_document-IsNumbered_example :
    IsNumbered 0 two_chunks
    × (is_empty two_chunks ≡ false)
    × ((c : TextChunk) → In c two_chunks → IsFrom (pos 8) (pos 4) two_sections.sections c)
chunk_extracted_document-IsNumbered_example =
    chunk_extracted_document-IsNumbered (pos 8) (pos 4) two_sections two_chunks chunked
