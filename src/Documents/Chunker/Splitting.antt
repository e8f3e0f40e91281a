-- ===== src/Documents/Chunker/Splitting.antt =====
-- Splitting ends, loses no text, and yields chunks of bounded size.
use multi_tenant_data_chat_p.Shared.{
  ℕ, zero, suc, ◌+◌, ◌-◌, ◌≤◌, ◌<◌, ◌≡◌, refl, ◌≢◌, ◌⊎◌, inl, inr, Bool, true, false, some, List,
  [], ◌∷◌, ◌++◌, In, here, there, In-append, ok, err, length, length-take, drop, is_empty, ltb, leb,
  Bool-cases, if◌then◌else◌, arith,
}
use multi_tenant_data_chat_p.Shared.Text.{Text, strip, slice, length-strip}
use multi_tenant_data_chat_p.Values.{ℤ, pos, negsuc}
use multi_tenant_data_chat_p.Documents.Chunker.{
  chunk_end, next_start, chunk_between, split_from, natural, positive, split_text_with_overlap,
  out_of_fuel, size_not_positive, overlap_negative, overlap_not_smaller, TextChunkingError,
}
use multi_tenant_data_chat_p.Documents.Chunker.Search.{chunk_end-bounds}

module _ (s : Text) (chunk_size chunk_overlap : ℕ) where
  -- The chunks of the text from `start` on: slices that are not empty, are not longer than the
  -- chunk size, each starting within the one before or at its end and not more than the overlap
  -- before that, until the end of the text is reached.
  pub data IsSplit : ℕ → List Text → Type 0 where
    at_end : {start : ℕ} → length s ≤ start → IsSplit start []
    last_chunk :
        {start end : ℕ}
        → start < end
        → end ≤ start + chunk_size
        → end ≡ length s
        → IsSplit start (chunk_between s start end)
    next_chunk :
        {start end next : ℕ} {chunks : List Text}
        → start < end
        → end ≤ start + chunk_size
        → end < length s
        → start < next
        → next ≤ end
        → end ≤ next + chunk_overlap
        → IsSplit next chunks
        → IsSplit start (chunk_between s start end ++ chunks)

  next_start-bounds :
      (start end : ℕ)
      → start < end
      → (start < next_start chunk_overlap start end)
        × (next_start chunk_overlap start end ≤ end)
        × (end ≤ next_start chunk_overlap start end + chunk_overlap)
  unfolding next_start
  next_start-bounds start end h = ground arith

  -- Fuel for the characters that are left is enough.
  split_from-IsSplit :
      (fuel start : ℕ)
      → 1 ≤ chunk_size
      → length s ≤ start + fuel
      → (chunks : List Text) × (split_from fuel s chunk_size chunk_overlap start ≡ some chunks)
        × IsSplit start chunks
  unfolding split_from
  split_from-IsSplit zero start p f = elim (Bool-cases (ltb start (length s))) [
    | inl t ↦ absurd (ground arith)
    | inr n ↦ ([], rw n refl, at_end (omega arith))
  ]
  split_from-IsSplit (suc fuel) start p f = elim (Bool-cases (ltb start (length s))) [
    | inr n ↦ ([], rw n refl, at_end (ground arith))
    | inl t ↦
        let end = chunk_end s chunk_size start in
        let (later, short, inside) = chunk_end-bounds s chunk_size start p (ground arith) in
        let (progress, within, near) = next_start-bounds start end later in
        elim (Bool-cases (leb (length s) end)) [
          | inl done ↦
              (chunk_between s start end, rw (t, done) refl, last_chunk later short (ground arith))
          | inr more ↦
              let (chunks, found, split) =
                split_from-IsSplit fuel (next_start chunk_overlap start end) p (omega arith) in
              (
                chunk_between s start end ++ chunks,
                rw (t, more, found) refl,
                next_chunk later short (ground arith) progress within near split,
              )
        ]
  ]

  chunk_between-bounds :
      (start end : ℕ) (c : Text)
      → end ≤ start + chunk_size
      → In c (chunk_between s start end)
      → (is_empty c ≡ false) × (length c ≤ chunk_size)
  unfolding chunk_between
  chunk_between-bounds start end c h i = guarded (is_empty (strip (slice s start end))) refl i
    where
      guarded :
          (b : Bool)
          → is_empty (strip (slice s start end)) ≡ b
          → In c (if b then [] else strip (slice s start end) ∷ [])
          → (is_empty c ≡ false) × (length c ≤ chunk_size)
      guarded true e i = elim i [ ]
      guarded false e (here q) = rw q (
        e,
        omega (arith, length-strip (slice s start end), length-take (end - start) (drop start s)),
      )
      guarded false e (there i) = elim i [ ]

  -- Every chunk of a split has at least one and at most `chunk_size` characters.
  pub IsSplit-bounds :
      {start : ℕ} {chunks : List Text} (c : Text)
      → IsSplit start chunks
      → In c chunks
      → (is_empty c ≡ false) × (length c ≤ chunk_size)
  IsSplit-bounds c (at_end h) i = elim i [ ]
  IsSplit-bounds c (last_chunk {start} {end} a b e) i = chunk_between-bounds start end c b i
  IsSplit-bounds c (next_chunk {start} {end} a b e d n o split) i =
      elim (In-append (chunk_between s start end) _ i) [
        | inl own ↦ chunk_between-bounds start end c b own
        | inr later ↦ IsSplit-bounds c split later
      ]

pos_inj : {a b : ℕ} → pos a ≡ pos b → a ≡ b
pos_inj e = cc

-- With a positive chunk size and a smaller overlap, `split_text_with_overlap` returns the chunks
-- of a split of the stripped text: its slices follow one another without a gap and overlap by
-- `chunk_overlap` at most, the loop reaches the end of the text, and every chunk has between one
-- and `chunk_size` characters. With other numbers it raises an error. It never runs out of fuel.
pub split_text_with_overlap-IsSplit :
    (s : Text) (chunk_size chunk_overlap : ℤ)
    → ((size : ℕ) × (overlap : ℕ) × (chunks : List Text) × (chunk_size ≡ pos size)
        × (chunk_overlap ≡ pos overlap)
        × (overlap < size)
        × (split_text_with_overlap s chunk_size chunk_overlap ≡ ok chunks)
        × IsSplit (strip s) size overlap 0 chunks
        × ((c : Text) → In c chunks → (is_empty c ≡ false) × (length c ≤ size)))
      ⊎ ((e : TextChunkingError) × (split_text_with_overlap s chunk_size chunk_overlap ≡ err e)
          × (e ≢ out_of_fuel)
          × ((size overlap : ℕ)
              → chunk_size ≡ pos size
              → chunk_overlap ≡ pos overlap
              → size ≤ overlap))
unfolding split_text_with_overlap positive natural
split_text_with_overlap-IsSplit s (negsuc n) chunk_overlap =
    inr (size_not_positive, refl, λ e. cc, λ size overlap e f. absurd (cc e))
split_text_with_overlap-IsSplit s (pos zero) chunk_overlap =
    inr (size_not_positive, refl, λ e. cc, λ size overlap e f. omega (arith, pos_inj e))
split_text_with_overlap-IsSplit s (pos (suc n)) (negsuc m) =
    inr (overlap_negative, refl, λ e. cc, λ size overlap e f. absurd (cc f))
split_text_with_overlap-IsSplit s (pos (suc n)) (pos m) = elim (Bool-cases (leb (suc n) m)) [
  | inl large ↦ inr (
    overlap_not_smaller,
    rw large refl,
    λ e. cc,
    λ size overlap e f. ground (arith, pos_inj e, pos_inj f),
  )
  | inr small ↦
      let (chunks, found, split) =
        split_from-IsSplit (strip s) (suc n) m (length (strip s)) 0 (omega arith) (omega arith) in
      inl (
        suc n,
        m,
        chunks,
        refl,
        refl,
        ground arith,
        rw (small, found) refl,
        split,
        λ c i. IsSplit-bounds (strip s) (suc n) m c split i,
      )
]
