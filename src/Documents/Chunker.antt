-- ===== src/Documents/Chunker.antt =====
-- services/document/text_chunker.py. `ExtractedSection` and `ExtractedDocument` are those of
-- text_extractor.py.
pub mod Search
pub mod Splitting
pub mod Indices
use multi_tenant_data_chat_p.Shared.{
  ℕ, zero, suc, ◌+◌, ◌-◌, ◌/◌, min, max, Bool, true, false, not, ◌&&◌, Option, none, some, List, [],
  ◌∷◌, ◌++◌, Result, ok, err, ◌>>=◌, ◌>>◌, raise_if, or_raise, length, is_empty, is_some, ltb, leb,
  ◌==◌, if◌then◌else◌,
}
use multi_tenant_data_chat_p.Shared.Text.{Text, text, text_eq, strip, starts_with, slice}
use multi_tenant_data_chat_p.Values.{ℤ, pos, negsuc, Value, int, Fields, put_field}

-- The messages of `TextChunkingError`. The model adds `out_of_fuel`, which is never raised.
pub data TextChunkingError : Type 0 where
  size_not_positive overlap_negative overlap_not_smaller no_chunks out_of_fuel : TextChunkingError

pub record ExtractedSection : Type 0 where
  pub text : Text
  pub page_number : Option ℤ
  pub section_title : Option Text
  pub metadata : Fields

pub record ExtractedDocument : Type 0 where
  pub sections : List ExtractedSection
  pub page_count : Option ℤ

pub record TextChunk : Type 0 where
  pub chunk_index : ℕ
  pub content : Text
  pub token_count : ℕ
  pub page_number : Option ℤ
  pub section_title : Option Text
  pub metadata : Fields

unfoldable pub estimate_token_count : Text → ℕ
estimate_token_count [] = 0
estimate_token_count (c ∷ s) = max 1 (length (c ∷ s) / 4)

-- The last position from `i` on, within `start` and `end`, at which `sub` stands in `s`.
unfoldable pub rfind_from : Text → Text → ℕ → ℕ → ℕ → Option ℕ
unfolding starts_with
rfind_from [] sub i start end = none
rfind_from (c ∷ s) sub i start end =
    let later = rfind_from s sub (suc i) start end in
    if is_some later
    then later
    else (if leb start i && (leb (i + length sub) end && starts_with (c ∷ s) sub)
        then some i
        else none)

-- `s.rfind(sub, start, end)` for a `sub` that is not empty; `none` is -1.
abbrev pub rfind : Text → Text → ℕ → ℕ → Option ℕ
rfind s sub start end = rfind_from s sub 0 start end

-- `max` of the positions that lie after `start`.
unfoldable pub last_boundary : ℕ → List (Option ℕ) → Option ℕ
last_boundary start [] = none
last_boundary start (none ∷ positions) = last_boundary start positions
last_boundary start (some p ∷ positions) =
    let rest = last_boundary start positions in
    if ltb start p then some (elim rest [ none ↦ p | some q ↦ max p q ]) else rest

unfoldable pub boundary_positions : Text → ℕ → ℕ → List (Option ℕ)
unfolding rfind_from
boundary_positions s search_start target_end =
    rfind s (text "\n") search_start target_end
    ∷ rfind s (text ". ") search_start target_end
    ∷ rfind s (text " ") search_start target_end
    ∷ []

-- `if normalized_text[end : end + 2] == ". ": end += 1`
unfoldable pub after_period : Text → ℕ → ℕ
unfolding text_eq
after_period s end = if slice s end (end + 2) == text ". " then end + 1 else end

-- Where the chunk from `start` ends.
unfoldable pub chunk_end : Text → ℕ → ℕ → ℕ
unfolding last_boundary boundary_positions after_period
chunk_end s chunk_size start =
    let target_end = min (start + chunk_size) (length s) in
    if ltb target_end (length s)
    then elim (last_boundary start
        (boundary_positions s (max start (target_end - 150)) target_end)) [
          | none ↦ target_end
          | some end ↦ after_period s end
        ]
    else target_end

-- `end - chunk_overlap`, or `end` where that is no progress.
unfoldable pub next_start : ℕ → ℕ → ℕ → ℕ
next_start chunk_overlap start end =
    if leb end (start + chunk_overlap) then end else end - chunk_overlap

-- The stripped chunk, unless it is empty.
unfoldable pub chunk_between : Text → ℕ → ℕ → List Text
unfolding strip
chunk_between s start end =
    let chunk = strip (slice s start end) in if is_empty chunk then [] else chunk ∷ []

-- The loop from `start` on; `none` if the fuel does not do.
unfoldable pub split_from : ℕ → Text → ℕ → ℕ → ℕ → Option (List Text)
unfolding chunk_end next_start chunk_between
split_from zero s chunk_size chunk_overlap start = if ltb start (length s) then none else some []
split_from (suc fuel) s chunk_size chunk_overlap start =
    let end = chunk_end s chunk_size start in
    let rest = split_from fuel s chunk_size chunk_overlap (next_start chunk_overlap start end) in
    if ltb start (length s)
    then (if leb (length s) end
        then some (chunk_between s start end)
        else elim rest [ none ↦ none | some chunks ↦ some (chunk_between s start end ++ chunks) ])
    else some []

unfoldable pub natural : ℤ → Option ℕ
natural (pos n) = some n
natural (negsuc n) = none

-- A chunk size that is not below 1.
unfoldable pub positive : ℤ → Option ℕ
positive (pos zero) = none
positive (pos (suc n)) = some (suc n)
positive (negsuc n) = none

unfoldable pub split_text_with_overlap : Text → ℤ → ℤ → Result TextChunkingError (List Text)
unfolding split_from natural positive strip
split_text_with_overlap s chunk_size chunk_overlap = do
  size ← or_raise (positive chunk_size) size_not_positive
  overlap ← or_raise (natural chunk_overlap) overlap_negative
  raise_if (leb size overlap) overlap_not_smaller
  let normalized_text = strip s
  or_raise (split_from (length normalized_text) normalized_text size overlap 0) out_of_fuel

-- The chunks of a section, numbered from `starting_index`, each with its number in the section.
unfoldable pub number_chunks : ExtractedSection → ℕ → ℕ → List Text → List TextChunk
unfolding estimate_token_count put_field
number_chunks section starting_index local_index [] = []
number_chunks section starting_index local_index (chunk_content ∷ chunks) =
    record {
      chunk_index = starting_index + local_index;
      content = chunk_content;
      token_count = estimate_token_count chunk_content;
      page_number = section.page_number;
      section_title = section.section_title;
      metadata = put_field section.metadata (text "section_chunk_index") (int (pos local_index));
    }
    ∷ number_chunks section starting_index (suc local_index) chunks

unfoldable pub chunk_extracted_section :
    ExtractedSection → ℤ → ℤ → ℕ → Result TextChunkingError (List TextChunk)
unfolding split_text_with_overlap number_chunks
chunk_extracted_section section chunk_size chunk_overlap starting_index = do
  section_chunks ← split_text_with_overlap section.text chunk_size chunk_overlap
  ok (number_chunks section starting_index 0 section_chunks)

-- The loop over the sections.
unfoldable pub chunk_sections :
    List ExtractedSection → ℤ → ℤ → List TextChunk → Result TextChunkingError (List TextChunk)
unfolding chunk_extracted_section
chunk_sections [] chunk_size chunk_overlap chunks = ok chunks
chunk_sections (section ∷ sections) chunk_size chunk_overlap chunks = do
  section_chunks ← chunk_extracted_section section chunk_size chunk_overlap (length chunks)
  chunk_sections sections chunk_size chunk_overlap (chunks ++ section_chunks)

unfoldable pub chunk_extracted_document :
    ExtractedDocument → ℤ → ℤ → Result TextChunkingError (List TextChunk)
unfolding chunk_sections
chunk_extracted_document document chunk_size chunk_overlap = do
  chunks ← chunk_sections document.sections chunk_size chunk_overlap []
  raise_if (is_empty chunks) no_chunks
  ok chunks
