-- ===== src/Documents/Chunker/Indices.antt =====
-- The chunks of a document are numbered from 0 on, without a gap, over all its sections.
use multi_tenant_data_chat_p.Shared.{
  ℕ, suc, ◌+◌, ◌≡◌, refl, sym, false, List, [], ◌∷◌, ◌++◌, In, here, there, In-append, inl, inr,
  subst, ok, ok_inj, >>=-eq-ok, raise_if-then, length, is_empty, arith,
}
use multi_tenant_data_chat_p.Shared.Text.{Text}
use multi_tenant_data_chat_p.Values.{ℤ}
use multi_tenant_data_chat_p.Documents.Chunker.{
  ExtractedSection, ExtractedDocument, TextChunk, number_chunks, chunk_extracted_section,
  chunk_sections, chunk_extracted_document, split_text_with_overlap, estimate_token_count,
}

-- Numbered from `n` on.
abbrev pub IsNumbered : ℕ → List TextChunk → Type 0
IsNumbered n [] = Unit
IsNumbered n (c ∷ cs) = (c.chunk_index ≡ n) × IsNumbered (suc n) cs

IsNumbered-append :
    (n : ℕ) (xs ys : List TextChunk)
    → IsNumbered n xs
    → IsNumbered (n + length xs) ys
    → IsNumbered n (xs ++ ys)
IsNumbered-append n [] ys h k = subst (λ m. IsNumbered m ys) (omega arith) k
IsNumbered-append n (x ∷ xs) ys (e, h) k =
    (e, IsNumbered-append (suc n) xs ys h (subst (λ m. IsNumbered m ys) (omega arith) k))

number_chunks-IsNumbered :
    (section : ExtractedSection) (starting_index local_index : ℕ) (chunks : List Text)
    → IsNumbered
        (starting_index + local_index)
        (number_chunks section starting_index local_index chunks)
unfolding number_chunks
number_chunks-IsNumbered section starting_index local_index [] = tt
number_chunks-IsNumbered section starting_index local_index (c ∷ cs) = (
  refl,
  subst (λ m. IsNumbered m (number_chunks section starting_index (suc local_index) cs))
      (omega arith) (number_chunks-IsNumbered section starting_index (suc local_index) cs),
)

module _ (chunk_size chunk_overlap : ℤ) where
  -- Where a chunk comes from: a section's title and page, and one of the texts that its text is
  -- split into.
  abbrev pub IsFrom : List ExtractedSection → TextChunk → Type 0
  IsFrom sections c =
      (section : ExtractedSection) × (texts : List Text) × In section sections
      × (split_text_with_overlap section.text chunk_size chunk_overlap ≡ ok texts)
      × In c.content texts
      × (c.page_number ≡ section.page_number)
      × (c.section_title ≡ section.section_title)
      × (c.token_count ≡ estimate_token_count c.content)

  number_chunks-In :
      (section : ExtractedSection) (starting_index local_index : ℕ) (texts : List Text)
      (c : TextChunk)
      → In c (number_chunks section starting_index local_index texts)
      → In c.content texts
        × (c.page_number ≡ section.page_number)
        × (c.section_title ≡ section.section_title)
        × (c.token_count ≡ estimate_token_count c.content)
  unfolding number_chunks
  number_chunks-In section starting_index local_index [] c i = elim i [ ]
  number_chunks-In section starting_index local_index (t ∷ ts) c (here e) =
      rw e (here refl, refl, refl, refl)
  number_chunks-In section starting_index local_index (t ∷ ts) c (there i) =
      let (j, a, b, d) = number_chunks-In section starting_index (suc local_index) ts c i in
      (there j, a, b, d)

  chunk_sections_sound :
      (all sections : List ExtractedSection) (chunks result : List TextChunk)
      → ((x : ExtractedSection) → In x sections → In x all)
      → IsNumbered 0 chunks
      → ((c : TextChunk) → In c chunks → IsFrom all c)
      → chunk_sections sections chunk_size chunk_overlap chunks ≡ ok result
      → IsNumbered 0 result × ((c : TextChunk) → In c result → IsFrom all c)
  unfolding chunk_sections chunk_extracted_section
  chunk_sections_sound all [] chunks result l n o h = rw (← ok_inj h) (n, o)
  chunk_sections_sound all (section ∷ sections) chunks result l n o h =
      let (own, made, rest) =
        >>=-eq-ok (chunk_extracted_section section chunk_size chunk_overlap (length chunks)) _ h in
      let (texts, split, numbered) =
        >>=-eq-ok (split_text_with_overlap section.text chunk_size chunk_overlap) _ made in
      let same : number_chunks section (length chunks) 0 texts ≡ own = ok_inj numbered in
      chunk_sections_sound all sections (chunks ++ own) result (λ x i. l x (there i))
        (IsNumbered-append 0 chunks own n (
          subst (λ m. IsNumbered m own) (omega arith)
            (subst (IsNumbered (length chunks + 0)) same
              (number_chunks-IsNumbered section (length chunks) 0 texts))))
        (λ c i. elim (In-append chunks own i) [
          | inl old ↦ o c old
          | inr new ↦
              let (j, a, b, d) =
                number_chunks-In section (length chunks) 0 texts c (subst (In c) (sym same) new) in
              (section, texts, l section (here refl), split, j, a, b, d)
        ])
        rest

  -- The chunks of a document, if it has any, are numbered 0, 1, 2 and so on over all sections;
  -- each is one of the pieces of the text of a section, with the page and the title of that
  -- section and its own estimated token count.
  pub chunk_extracted_document-IsNumbered :
      (document : ExtractedDocument) (chunks : List TextChunk)
      → chunk_extracted_document document chunk_size chunk_overlap ≡ ok chunks
      → IsNumbered 0 chunks
        × (is_empty chunks ≡ false)
        × ((c : TextChunk) → In c chunks → IsFrom document.sections c)
  unfolding chunk_extracted_document
  chunk_extracted_document-IsNumbered document chunks h =
      let (cs, made, h₁) =
        >>=-eq-ok (chunk_sections document.sections chunk_size chunk_overlap []) _ h in
      let (some_chunk, done) = raise_if-then (is_empty cs) _ _ h₁ in
      let (numbered, from_section) =
        chunk_sections_sound document.sections document.sections [] cs (λ x i. i) tt
          (λ c i. elim i [ ]) made in
      rw (← ok_inj done) (numbered, some_chunk, from_section)
