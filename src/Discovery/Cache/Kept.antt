-- ===== src/Discovery/Cache/Kept.antt =====
-- What a delete of tables leaves.
use multi_tenant_data_chat_p.Shared.{
  ℕ, ◌≡◌, refl, sym, ap, ◌∙◌, ◌≢◌, inl, inr, Bool, true, false, not, List, [], ◌∷◌, map, contains,
  filter_by, In, here, there, In-filter_by, In-filter_by_of, Bool-cases, ◌==◌, ==_iff, ==_self,
  nat_eq, arith,
}
use multi_tenant_data_chat_p.Models.{
  DatabaseSchema, DatabaseTable, DatabaseColumn, TablePermission, Store,
}
use multi_tenant_data_chat_p.Discovery.Cache.{
  delete_columns, delete_table_permissions, delete_tables,
}

-- The keys of the selected rows.
pub contains-keys :
    {A : Type 0} (key : A → ℕ) (p : A → Bool) (xs : List A) (n : ℕ)
    → contains (map key (filter_by p xs)) n ≡ true
    → (a : A) × In a xs × (p a ≡ true) × (key a ≡ n)
contains-keys key p [] n h = cc
contains-keys {A} key p (x ∷ xs) n h = elim (Bool-cases (p x)) [
  | inl t ↦ found t (contains-keys key p xs n) (rw t at h)
  | inr f ↦ let (a, i, q, e) = contains-keys key p xs n (rw f at h) in (a, there i, q, e)
]
  where
    found :
        p x ≡ true
        → (contains (map key (filter_by p xs)) n ≡ true
            → (a : A) × In a xs × (p a ≡ true) × (key a ≡ n))
        → contains (key x ∷ map key (filter_by p xs)) n ≡ true
        → (a : A) × In a (x ∷ xs) × (p a ≡ true) × (key a ≡ n)
    found t ih k = elim (Bool-cases (n == key x)) [
      | inl e ↦ (x, here refl, t, sym ((==_iff n (key x)).0 e))
      | inr f ↦ let (a, i, q, e) = ih (rw f at k) in (a, there i, q, e)
    ]

pub contains-keys_of :
    {A : Type 0} (key : A → ℕ) (p : A → Bool) (xs : List A) (a : A)
    → In a xs
    → p a ≡ true
    → contains (map key (filter_by p xs)) (key a) ≡ true
contains-keys_of key p [] a i h = elim i [ ]
contains-keys_of key p (x ∷ xs) a (here e) h = rw (← e) (rw h (ground (arith, ==_self (key a))))
contains-keys_of key p (x ∷ xs) a (there i) h = elim (Bool-cases (p x)) [
  | inl t ↦ rw t (ground (arith, contains-keys_of key p xs a i h))
  | inr f ↦ rw f (contains-keys_of key p xs a i h)
]

-- A delete of tables: what stays.
module _ (p : DatabaseTable → Bool) (st : Store) where
  pub kept_table :
      (t : DatabaseTable) → In t st.tables → p t ≡ false → In t (delete_tables p st).tables
  unfolding delete_tables
  kept_table t i h = In-filter_by_of (λ (t : DatabaseTable). not (p t)) t st.tables i (rw h refl)

  not_listed :
      (n : ℕ)
      → ((t : DatabaseTable) → In t st.tables → p t ≡ true → n ≢ t.id)
      → not (contains (map (λ (t : DatabaseTable). t.id) (filter_by p st.tables)) n) ≡ true
  not_listed n h = go (contains (map (λ (t : DatabaseTable). t.id) (filter_by p st.tables)) n) refl
    where
      go :
          (b : Bool)
          → contains (map (λ (t : DatabaseTable). t.id) (filter_by p st.tables)) n ≡ b
          → not b ≡ true
      go true e =
          let (t, j, q, same) = contains-keys (λ (t : DatabaseTable). t.id) p st.tables n e in
          absurd (h t j q (sym same))
      go false e = refl

  pub kept_schema : (s : DatabaseSchema) → In s st.schemas → In s (delete_tables p st).schemas
  unfolding delete_tables delete_columns delete_table_permissions
  kept_schema s i = i

  pub kept_column :
      (c : DatabaseColumn)
      → In c st.columns
      → ((t : DatabaseTable) → In t st.tables → p t ≡ true → c.table_id ≢ t.id)
      → In c (delete_tables p st).columns
  unfolding delete_tables delete_columns delete_table_permissions
  kept_column c i h =
      let ids = map (λ (t : DatabaseTable). t.id) (filter_by p st.tables) in
      In-filter_by_of (λ (c : DatabaseColumn). not (contains ids c.table_id)) c st.columns i
        (not_listed c.table_id h)

  pub kept_grant :
      (g : TablePermission)
      → In g st.table_permissions
      → ((t : DatabaseTable) → In t st.tables → p t ≡ true → g.table_id ≢ t.id)
      → In g (delete_tables p st).table_permissions
  unfolding delete_tables delete_columns delete_table_permissions
  kept_grant g i h =
      let ids = map (λ (t : DatabaseTable). t.id) (filter_by p st.tables) in
      In-filter_by_of (λ (g : TablePermission). not (contains ids g.table_id)) g
        st.table_permissions i (not_listed g.table_id h)

  -- A permission that is left is for no deleted table.
  pub left_grant :
      (g : TablePermission) (t : DatabaseTable)
      → In g (delete_tables p st).table_permissions
      → In t st.tables
      → p t ≡ true
      → g.table_id ≢ t.id
  unfolding delete_tables delete_columns delete_table_permissions
  left_grant g t i j h e =
      let ids = map (λ (t : DatabaseTable). t.id) (filter_by p st.tables) in
      let (k, gone) =
        In-filter_by (λ (g : TablePermission). not (contains ids g.table_id)) g st.table_permissions
          i in
      let listed = contains-keys_of (λ (t : DatabaseTable). t.id) p st.tables t j h in
      cc (ap not (ap (contains ids) e ∙ listed), gone)
