-- ===== src/Documents/Chunker/Search.antt =====
-- Where a chunk ends: after its start, and within the chunk size and the text.
use multi_tenant_data_chat_p.Shared.{
  ℕ, suc, ◌+◌, ◌-◌, ◌≤◌, ◌<◌, min, max, ◌≡◌, refl, inl, inr, Bool, true, false, Option, none, some,
  List, [], ◌∷◌, length, ltb, ◌==◌, Option-cases, if◌then◌else◌, arith,
}
use multi_tenant_data_chat_p.Shared.Text.{Text, text, text_eq, slice}
use multi_tenant_data_chat_p.Documents.Chunker.{
  rfind_from, last_boundary, boundary_positions, after_period, chunk_end,
}

-- A position that is found keeps the search within its bounds.
rfind_from-bounds :
    (s sub : Text) (i start end p : ℕ)
    → rfind_from s sub i start end ≡ some p
    → (start ≤ p) × (p + length sub ≤ end)
unfolding rfind_from
rfind_from-bounds [] sub i start end p h = cc
rfind_from-bounds (c ∷ s) sub i start end p h =
    elim (Option-cases (rfind_from s sub (suc i) start end)) [
      | inl e ↦ ground (arith, e)
      | inr (q, e) ↦ rfind_from-bounds s sub (suc i) start end p (ground (arith, e))
    ]

-- All positions that are found lie before `end`.
abbrev pub Within : ℕ → List (Option ℕ) → Type 0
Within end [] = Unit
Within end (o ∷ os) = ((p : ℕ) → o ≡ some p → p < end) × Within end os

boundary_positions-Within : (s : Text) (start end : ℕ) → Within end (boundary_positions s start end)
unfolding boundary_positions
boundary_positions-Within s start end = (
  λ p h. omega (arith, (rfind_from-bounds s (text "\n") 0 start end p h).1),
  (
    λ p h. omega (arith, (rfind_from-bounds s (text ". ") 0 start end p h).1),
    (λ p h. omega (arith, (rfind_from-bounds s (text " ") 0 start end p h).1), tt),
  ),
)

last_boundary-bounds :
    (start end : ℕ) (os : List (Option ℕ)) (p : ℕ)
    → Within end os
    → last_boundary start os ≡ some p
    → (start < p) × (p < end)
unfolding last_boundary
last_boundary-bounds start end [] p w h = cc
last_boundary-bounds start end (none ∷ os) p w h = last_boundary-bounds start end os p w.1 h
last_boundary-bounds start end (some q ∷ os) p w h = elim (Option-cases (last_boundary start os)) [
  | inl e ↦ ground (arith, e, w.0 q refl)
  | inr (r, e) ↦ ground (arith, e, w.0 q refl, last_boundary-bounds start end os r w.1 e)
]

after_period-bounds : (s : Text) (p : ℕ) → (p ≤ after_period s p) × (after_period s p ≤ p + 1)
unfolding after_period
after_period-bounds s p = guarded (slice s p (p + 2) == text ". ")
  where
    guarded : (b : Bool) → (p ≤ (if b then p + 1 else p)) × ((if b then p + 1 else p) ≤ p + 1)
    guarded true = (omega arith, omega arith)
    guarded false = (omega arith, omega arith)

-- A chunk is not empty, has at most `chunk_size` characters, and ends within the text.
pub chunk_end-bounds :
    (s : Text) (chunk_size start : ℕ)
    → 1 ≤ chunk_size
    → start < length s
    → (start < chunk_end s chunk_size start)
      × (chunk_end s chunk_size start ≤ start + chunk_size)
      × (chunk_end s chunk_size start ≤ length s)
unfolding chunk_end
chunk_end-bounds s chunk_size start p l = inside (ltb target_end (length s))
  where
    target_end : ℕ
    target_end = min (start + chunk_size) (length s)

    Bounds : ℕ → Type 0
    Bounds end = (start < end) × (end ≤ start + chunk_size) × (end ≤ length s)

    found :
        (o : Option ℕ)
        → ((q : ℕ) → o ≡ some q → (start < q) × (q < target_end))
        → Bounds (elim o [ none ↦ target_end | some end ↦ after_period s end ])
    found none h = omega arith
    found (some q) h = omega (arith, after_period-bounds s q, h q refl)

    inside :
        (b : Bool)
        → Bounds (
            if b
            then elim (last_boundary start
                (boundary_positions s (max start (target_end - 150)) target_end)) [
                  | none ↦ target_end
                  | some end ↦ after_period s end
                ]
            else target_end)
    inside true =
        found (last_boundary start (boundary_positions s (max start (target_end - 150)) target_end))
          (λ q h.
            last_boundary-bounds start target_end
              (boundary_positions s (max start (target_end - 150)) target_end) q
              (boundary_positions-Within s (max start (target_end - 150)) target_end) h)
    inside false = omega arith
