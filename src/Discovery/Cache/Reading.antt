-- ===== src/Discovery/Cache/Reading.antt =====
-- What the loops of `cache_discovered_metadata` add to the view of the cache.
use mathlib.Core.Path.{ap₂}
use multi_tenant_data_chat_p.Shared.{
  ℕ, ◌≤◌, ◌≡◌, refl, sym, ap, ◌∙◌, inl, inr, Bool, true, false, ◌&&◌, List, [], ◌∷◌, ◌++◌, map,
  filter_by, In, here, there, In-filter_by, Bool-cases, ◌==◌, ==_iff, ==_self, nat_eq, append-nil,
  append_assoc, if◌then◌else◌, arith,
}
use multi_tenant_data_chat_p.Shared.Text.{Text}
use multi_tenant_data_chat_p.Models.{DatabaseSchema, DatabaseTable, DatabaseColumn, Store}
use multi_tenant_data_chat_p.Discovery.{DiscoveredColumn, DiscoveredTable}
use multi_tenant_data_chat_p.Discovery.Cache.{
  Caching, column_row, table_row, add_column, add_table, cache_columns, cache_table, is_table_of,
}
use multi_tenant_data_chat_p.Discovery.Cache.View.{column_view, columns_in, table_view, tables_in}
use multi_tenant_data_chat_p.Discovery.Cache.Fresh.{IsFresh}

-- A selection of a list and of one more item.
pub map-filter_by_snoc :
    {A B : Type 0} (f : A → B) (p : A → Bool) (xs : List A) (a : A)
    → map f (filter_by p (xs ++ (a ∷ [])))
      ≡ map f (filter_by p xs) ++ (if p a then f a ∷ [] else [])
map-filter_by_snoc f p [] a = elim (Bool-cases (p a)) [ inl t ↦ rw t refl | inr n ↦ rw n refl ]
map-filter_by_snoc f p (x ∷ xs) a = elim (Bool-cases (p x)) [
  | inl t ↦ rw t (ap (λ l. f x ∷ l) (map-filter_by_snoc f p xs a))
  | inr n ↦ rw n (map-filter_by_snoc f p xs a)
]

pub filter_by-none :
    {A : Type 0} (p : A → Bool) (xs : List A)
    → ((x : A) → In x xs → p x ≡ false)
    → filter_by p xs ≡ []
filter_by-none p [] h = refl
filter_by-none p (x ∷ xs) h = rw (h x (here refl)) (filter_by-none p xs (λ y i. h y (there i)))

pub map_congr :
    {A B : Type 0} (f g : A → B) (xs : List A)
    → ((x : A) → In x xs → f x ≡ g x)
    → map f xs ≡ map g xs
map_congr f g [] h = refl
map_congr f g (x ∷ xs) h =
    rw (h x (here refl)) (ap (λ l. g x ∷ l) (map_congr f g xs (λ y i. h y (there i))))

pub append_if :
    {A : Type 0} (b : Bool) (xs ys zs : List A)
    → (xs ++ (if b then ys else [])) ++ (if b then zs else []) ≡ xs ++ (if b then ys ++ zs else [])
append_if true xs ys zs = append_assoc xs ys zs
append_if false xs ys zs = append-nil (xs ++ [])

module _ (ids : ℕ → ℕ) (tenant_id connection_id : ℕ) where
  -- One more column is seen in its table only.
  columns_in-add_column :
      (table_id : ℕ) (c : DiscoveredColumn) (s : Caching) (j : ℕ)
      → columns_in tenant_id connection_id
          (add_column ids tenant_id connection_id table_id c s).store.columns
          j
        ≡ columns_in tenant_id connection_id s.store.columns j
          ++ (if j == table_id then c ∷ [] else [])
  unfolding columns_in add_column
  columns_in-add_column table_id c s j =
      map-filter_by_snoc column_view
        (λ (c : DatabaseColumn). c.tenant_id == tenant_id && c.table_id == j) s.store.columns
        (column_row ids tenant_id connection_id (ids s.drawn) table_id c)
      ∙ ap (λ b. columns_in tenant_id connection_id s.store.columns j ++ (if b then c ∷ [] else []))
          (ground (arith, ==_iff tenant_id tenant_id, ==_iff table_id j, ==_iff j table_id))

  columns_in-cache_columns :
      (table_id : ℕ) (columns : List DiscoveredColumn) (s : Caching) (j : ℕ)
      → columns_in tenant_id connection_id
          (cache_columns ids tenant_id connection_id table_id columns s).store.columns
          j
        ≡ columns_in tenant_id connection_id s.store.columns j
          ++ (if j == table_id then columns else [])
  unfolding cache_columns
  columns_in-cache_columns table_id [] s j = elim (Bool-cases (j == table_id)) [
    | inl t ↦ rw t (sym (append-nil _))
    | inr n ↦ rw n (sym (append-nil _))
  ]
  columns_in-cache_columns table_id (c ∷ columns) s j =
      columns_in-cache_columns table_id columns
        (add_column ids tenant_id connection_id table_id c s) j
      ∙ ap (λ l. l ++ (if j == table_id then columns else []))
          (columns_in-add_column table_id c s j)
      ∙ append_if (j == table_id) (columns_in tenant_id connection_id s.store.columns j) (c ∷ [])
          columns

  -- The loop over the columns touches nothing else.
  pub cache_columns_frame :
      (table_id : ℕ) (columns : List DiscoveredColumn) (s : Caching)
      → let s' = cache_columns ids tenant_id connection_id table_id columns s in
        (s'.store.tables ≡ s.store.tables) × (s'.store.schemas ≡ s.store.schemas)
  unfolding cache_columns add_column
  cache_columns_frame table_id [] s = (refl, refl)
  cache_columns_frame table_id (c ∷ columns) s =
      cache_columns_frame table_id columns (add_column ids tenant_id connection_id table_id c s)

  -- No column is seen in a table whose id is not drawn yet.
  columns_in-fresh :
      (st : Store) (drawn j : ℕ)
      → IsFresh ids st drawn
      → drawn ≤ j
      → columns_in tenant_id connection_id st.columns (ids j) ≡ []
  unfolding columns_in
  columns_in-fresh st drawn j f le = ap (map column_view) (
      filter_by-none (λ (c : DatabaseColumn). c.tenant_id == tenant_id && c.table_id == ids j)
        st.columns (λ c i. ground (arith, f.column_table c i j le, ==_iff c.table_id (ids j))))

  -- A table that was there is seen as before.
  table_view-cache_table :
      (schema_id : ℕ) (t : DiscoveredTable) (s : Caching) (σ : DatabaseSchema) (old : DatabaseTable)
      → IsFresh ids s.store s.drawn
      → In old s.store.tables
      → table_view tenant_id connection_id
          (cache_table ids tenant_id connection_id schema_id t s).store
          σ
          old
        ≡ table_view tenant_id connection_id s.store σ old
  unfolding cache_table table_view add_table
  table_view-cache_table schema_id t s σ old f i =
      let other : (old.id == ids s.drawn) ≡ false =
        ground (arith, f.table_id old i s.drawn (omega arith), ==_iff old.id (ids s.drawn)) in
      ap
        (λ (columns : List DiscoveredColumn). record {
          schema_name = σ.schema_name;
          table_name = old.table_name;
          table_type = old.table_type;
          estimated_row_count = old.estimated_row_count;
          primary_key_columns = old.primary_key_columns;
          columns = columns;
        })
        (columns_in-cache_columns (ids s.drawn) t.columns
            (add_table ids tenant_id connection_id schema_id t s) old.id
          ∙ ap
              (λ b.
                columns_in tenant_id connection_id s.store.columns old.id
                ++ (if b then t.columns else []))
              other
          ∙ append-nil (columns_in tenant_id connection_id s.store.columns old.id))

  -- A new table is seen as it was discovered.
  table_view_new :
      (schema_id : ℕ) (t : DiscoveredTable) (s : Caching) (σ : DatabaseSchema)
      → IsFresh ids s.store s.drawn
      → σ.schema_name ≡ t.schema_name
      → table_view tenant_id connection_id
          (cache_table ids tenant_id connection_id schema_id t s).store
          σ
          (table_row ids tenant_id connection_id (ids s.drawn) schema_id t)
        ≡ t
  unfolding cache_table table_view add_table
  table_view_new schema_id t s σ f named =
      ap₂
        (λ (name : Text) (columns : List DiscoveredColumn). record {
          schema_name = name;
          table_name = t.table_name;
          table_type = t.table_type;
          estimated_row_count = t.estimated_row_count;
          primary_key_columns = t.primary_key_columns;
          columns = columns;
        })
        named
        (columns_in-cache_columns (ids s.drawn) t.columns
            (add_table ids tenant_id connection_id schema_id t s) (ids s.drawn)
          ∙ ap
              (λ b.
                columns_in tenant_id connection_id s.store.columns (ids s.drawn)
                ++ (if b then t.columns else []))
              (==_self (ids s.drawn))
          ∙ ap (λ l. l ++ t.columns) (columns_in-fresh s.store s.drawn s.drawn f (omega arith)))

  tables_of_cache_table :
      (schema_id : ℕ) (t : DiscoveredTable) (s : Caching)
      → (cache_table ids tenant_id connection_id schema_id t s).store.tables
        ≡ s.store.tables ++ (table_row ids tenant_id connection_id (ids s.drawn) schema_id t ∷ [])
  unfolding cache_table add_table
  tables_of_cache_table schema_id t s =
      (cache_columns_frame (ids s.drawn) t.columns
        (add_table ids tenant_id connection_id schema_id t s)).0

  -- Whether the new row stands in a schema, and as what.
  seen_in :
      (schema_id : ℕ) (t : DiscoveredTable) (s : Caching) (σ : DatabaseSchema)
      → IsFresh ids s.store s.drawn
      → (σ.id ≡ schema_id → σ.schema_name ≡ t.schema_name)
      → let row = table_row ids tenant_id connection_id (ids s.drawn) schema_id t in
        (if is_table_of tenant_id connection_id row && row.schema_id == σ.id
          then table_view tenant_id connection_id
              (cache_table ids tenant_id connection_id schema_id t s).store
              σ
              row
            ∷ []
          else [])
        ≡ (if σ.id == schema_id then t ∷ [] else [])
  unfolding table_row
  seen_in schema_id t s σ f named = elim (Bool-cases (σ.id == schema_id)) [
    | inl same ↦ ground (
      arith,
      table_view_new schema_id t s σ f (named ((==_iff σ.id schema_id).0 same)),
      ==_iff tenant_id tenant_id,
      ==_iff connection_id connection_id,
      ==_iff schema_id σ.id,
      ==_iff σ.id schema_id,
    )
    | inr other ↦ ground (arith, ==_iff schema_id σ.id, ==_iff σ.id schema_id)
  ]

  pub tables_in-cache_table :
      (schema_id : ℕ) (t : DiscoveredTable) (s : Caching) (σ : DatabaseSchema)
      → IsFresh ids s.store s.drawn
      → (σ.id ≡ schema_id → σ.schema_name ≡ t.schema_name)
      → tables_in tenant_id connection_id
          (cache_table ids tenant_id connection_id schema_id t s).store
          σ
        ≡ tables_in tenant_id connection_id s.store σ ++ (if σ.id == schema_id then t ∷ [] else [])
  unfolding tables_in
  tables_in-cache_table schema_id t s σ f named =
      let s' = cache_table ids tenant_id connection_id schema_id t s in
      let row = table_row ids tenant_id connection_id (ids s.drawn) schema_id t in
      let view = table_view tenant_id connection_id s'.store σ in
      let mine =
        λ (t : DatabaseTable). is_table_of tenant_id connection_id t && t.schema_id == σ.id in
      ap (λ ts. map view (filter_by mine ts)) (tables_of_cache_table schema_id t s)
      ∙ map-filter_by_snoc view mine s.store.tables row
      ∙ ap (λ l. l ++ (if mine row then view row ∷ [] else []))
          (map_congr view (table_view tenant_id connection_id s.store σ)
            (filter_by mine s.store.tables)
            (λ old i.
              table_view-cache_table schema_id t s σ old f
                (In-filter_by mine old s.store.tables i).0))
      ∙ ap (λ l. tables_in tenant_id connection_id s.store σ ++ l) (seen_in schema_id t s σ f named)
