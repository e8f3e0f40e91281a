-- ===== src/Documents/Processing/Selection.antt =====
-- Which rows the queries of document_processor.py select.
use multi_tenant_data_chat_p.Shared.{
  ℕ, ◌≡◌, refl, ap, inl, inr, ◌&&◌, Bool, true, not, some, List, [], ◌∷◌, ◌++◌, map, filter_by,
  ◌==◌, ==_self, nat_eq, Bool-cases, arith,
}
use multi_tenant_data_chat_p.Models.{User}
use multi_tenant_data_chat_p.Documents.Chunker.{TextChunk}
use multi_tenant_data_chat_p.Documents.Processing.{
  KnowledgeBase, Document, find_knowledge_base, get_document_by_id, is_chunk_of, chunk_record,
}

-- Selections of a list that was selected from before.
pub filter_by-nothing :
    {A : Type 0} (p : A → Bool) (xs : List A) → filter_by p (filter_by (λ x. not (p x)) xs) ≡ []
filter_by-nothing p [] = refl
filter_by-nothing p (x ∷ xs) = elim (Bool-cases (p x)) [
  | inl t ↦ rw t (filter_by-nothing p xs)
  | inr f ↦ rw f (rw f (filter_by-nothing p xs))
]

pub filter_by_idem :
    {A : Type 0} (p : A → Bool) (xs : List A) → filter_by p (filter_by p xs) ≡ filter_by p xs
filter_by_idem p [] = refl
filter_by_idem p (x ∷ xs) = elim (Bool-cases (p x)) [
  | inl t ↦ rw t (rw t (ap (λ ys. x ∷ ys) (filter_by_idem p xs)))
  | inr f ↦ rw f (filter_by_idem p xs)
]

pub filter_by-append :
    {A : Type 0} (p : A → Bool) (xs ys : List A)
    → filter_by p (xs ++ ys) ≡ filter_by p xs ++ filter_by p ys
filter_by-append p [] ys = refl
filter_by-append p (x ∷ xs) ys = elim (Bool-cases (p x)) [
  | inl t ↦ rw t (ap (λ zs. x ∷ zs) (filter_by-append p xs ys))
  | inr f ↦ rw f (filter_by-append p xs ys)
]

module _ (user : User) (k : KnowledgeBase) (d : Document) (own : d.tenant_id ≡ user.tenant_id)
    (placed : d.knowledge_base_id ≡ k.id) where
  chunk_record-is_chunk_of : (c : TextChunk) → is_chunk_of d (chunk_record user k d c) ≡ true
  unfolding is_chunk_of chunk_record
  chunk_record-is_chunk_of c =
      rw (own, placed, ==_self user.tenant_id, ==_self k.id, ==_self d.id) refl

  pub all_selected :
      (cs : List TextChunk)
      → filter_by (is_chunk_of d) (map (chunk_record user k d) cs) ≡ map (chunk_record user k d) cs
  all_selected [] = refl
  all_selected (c ∷ cs) =
      rw (chunk_record-is_chunk_of c) (ap (λ ys. chunk_record user k d c ∷ ys) (all_selected cs))

  pub none_selected :
      (cs : List TextChunk)
      → filter_by (λ c. not (is_chunk_of d c)) (map (chunk_record user k d) cs) ≡ []
  none_selected [] = refl
  none_selected (c ∷ cs) = rw (chunk_record-is_chunk_of c) (none_selected cs)

pub find_knowledge_base-tenant :
    (ks : List KnowledgeBase) (tenant_id id : ℕ) (k : KnowledgeBase)
    → find_knowledge_base ks tenant_id id ≡ some k
    → (k.id ≡ id) × (k.tenant_id ≡ tenant_id)
unfolding find_knowledge_base
find_knowledge_base-tenant [] tenant_id id k h = cc
find_knowledge_base-tenant (x ∷ xs) tenant_id id k h =
    elim (Bool-cases (x.id == id && x.tenant_id == tenant_id)) [
      | inl this ↦ (ground arith, ground arith)
      | inr other ↦ find_knowledge_base-tenant xs tenant_id id k (ground arith)
    ]

pub get_document_by_id-tenant :
    (ds : List Document) (tenant_id knowledge_base_id id : ℕ) (d : Document)
    → get_document_by_id ds tenant_id knowledge_base_id id ≡ some d
    → (d.id ≡ id) × (d.tenant_id ≡ tenant_id) × (d.knowledge_base_id ≡ knowledge_base_id)
unfolding get_document_by_id
get_document_by_id-tenant [] tenant_id knowledge_base_id id d h = cc
get_document_by_id-tenant (x ∷ xs) tenant_id knowledge_base_id id d h =
    elim (Bool-cases
      (x.id == id && (x.tenant_id == tenant_id && x.knowledge_base_id == knowledge_base_id))) [
        | inl this ↦ (ground arith, ground arith, ground arith)
        | inr other ↦ get_document_by_id-tenant xs tenant_id knowledge_base_id id d (ground arith)
      ]
