-- ===== src/Discovery/Cache/Fresh.antt =====
-- The UUIDs that are still to be drawn name no row of the database, and stay so while rows are
-- cached.
use multi_tenant_data_chat_p.Shared.{
  ℕ, suc, ◌≤◌, ◌≡◌, sym, subst, ◌≢◌, inl, inr, List, [], ◌∷◌, ◌++◌, In, here, there, In-append,
  arith,
}
use multi_tenant_data_chat_p.Models.{DatabaseSchema, DatabaseTable, DatabaseColumn, Store}
use multi_tenant_data_chat_p.Discovery.{DiscoveredColumn, DiscoveredTable, DiscoveredSchema}
use multi_tenant_data_chat_p.Discovery.Cache.{
  Caching, column_row, table_row, schema_row, add_column, add_table, add_schema, cache_columns,
  cache_table, cache_tables, cache_schema,
}

-- The UUIDs from the position `drawn` on are no ids in the store.
pub record IsFresh (ids : ℕ → ℕ) (st : Store) (drawn : ℕ) : Type 0 where
  pub schema_id : (s : DatabaseSchema) → In s st.schemas → (j : ℕ) → drawn ≤ j → s.id ≢ ids j
  pub table_id : (t : DatabaseTable) → In t st.tables → (j : ℕ) → drawn ≤ j → t.id ≢ ids j
  pub table_schema :
      (t : DatabaseTable) → In t st.tables → (j : ℕ) → drawn ≤ j → t.schema_id ≢ ids j
  pub column_table :
      (c : DatabaseColumn) → In c st.columns → (j : ℕ) → drawn ≤ j → c.table_id ≢ ids j

-- A property of the items of a list and of one more.
pub In-snoc :
    {A : Type 0} (P : A → Type 0) (xs : List A) (a : A)
    → ((x : A) → In x xs → P x)
    → P a
    → (x : A) → In x (xs ++ (a ∷ []))
    → P x
In-snoc P xs a old new x i = elim (In-append xs (a ∷ []) i) [ inl j ↦ old x j | inr j ↦ last j ]
  where
    last : In x (a ∷ []) → P x
    last (here e) = subst P (sym e) new
    last (there j) = elim j [ ]

module _ (ids : ℕ → ℕ) (distinct : (i j : ℕ) → ids i ≡ ids j → i ≡ j)
    (tenant_id connection_id : ℕ) where
  pub drawn_before : (i j : ℕ) → suc i ≤ j → ids i ≢ ids j
  drawn_before i j h e = absurd (omega (arith, distinct i j e))

  IsFresh-add_column :
      (table_id : ℕ) (c : DiscoveredColumn) (s : Caching)
      → IsFresh ids s.store s.drawn
      → ((j : ℕ) → s.drawn ≤ j → table_id ≢ ids j)
      → let s' = add_column ids tenant_id connection_id table_id c s in
        IsFresh ids s'.store s'.drawn
  unfolding add_column
  IsFresh-add_column table_id c s f h = record {
    schema_id = λ x i j le. f.schema_id x i j (omega arith);
    table_id = λ x i j le. f.table_id x i j (omega arith);
    table_schema = λ x i j le. f.table_schema x i j (omega arith);
    column_table =
        In-snoc (λ (x : DatabaseColumn). (j : ℕ) → suc s.drawn ≤ j → x.table_id ≢ ids j)
          s.store.columns (column_row ids tenant_id connection_id (ids s.drawn) table_id c)
          (λ x i j le. f.column_table x i j (omega arith)) (λ j le. h j (omega arith));
  }

  IsFresh-add_table :
      (schema_id : ℕ) (t : DiscoveredTable) (s : Caching)
      → IsFresh ids s.store s.drawn
      → ((j : ℕ) → s.drawn ≤ j → schema_id ≢ ids j)
      → let s' = add_table ids tenant_id connection_id schema_id t s in
        IsFresh ids s'.store s'.drawn
  unfolding add_table
  IsFresh-add_table schema_id t s f h =
      let row = table_row ids tenant_id connection_id (ids s.drawn) schema_id t in
      record {
        schema_id = λ x i j le. f.schema_id x i j (omega arith);
        table_id =
            In-snoc (λ (x : DatabaseTable). (j : ℕ) → suc s.drawn ≤ j → x.id ≢ ids j) s.store.tables
              row (λ x i j le. f.table_id x i j (omega arith)) (drawn_before s.drawn);
        table_schema =
            In-snoc (λ (x : DatabaseTable). (j : ℕ) → suc s.drawn ≤ j → x.schema_id ≢ ids j)
              s.store.tables row (λ x i j le. f.table_schema x i j (omega arith))
              (λ j le. h j (omega arith));
        column_table = λ x i j le. f.column_table x i j (omega arith);
      }

  pub IsFresh-add_schema :
      (d : DiscoveredSchema) (s : Caching)
      → IsFresh ids s.store s.drawn
      → let s' = add_schema ids tenant_id connection_id d s in IsFresh ids s'.store s'.drawn
  unfolding add_schema
  IsFresh-add_schema d s f = record {
    schema_id =
        In-snoc (λ (x : DatabaseSchema). (j : ℕ) → suc s.drawn ≤ j → x.id ≢ ids j) s.store.schemas
          (schema_row ids tenant_id connection_id (ids s.drawn) d)
          (λ x i j le. f.schema_id x i j (omega arith)) (drawn_before s.drawn);
    table_id = λ x i j le. f.table_id x i j (omega arith);
    table_schema = λ x i j le. f.table_schema x i j (omega arith);
    column_table = λ x i j le. f.column_table x i j (omega arith);
  }

  IsFresh-cache_columns :
      (table_id : ℕ) (columns : List DiscoveredColumn) (s : Caching)
      → IsFresh ids s.store s.drawn
      → ((j : ℕ) → s.drawn ≤ j → table_id ≢ ids j)
      → let s' = cache_columns ids tenant_id connection_id table_id columns s in
        IsFresh ids s'.store s'.drawn × (s.drawn ≤ s'.drawn)
  unfolding cache_columns
  IsFresh-cache_columns table_id [] s f h = (f, omega arith)
  IsFresh-cache_columns table_id (c ∷ columns) s f h =
      let (g, le) =
        IsFresh-cache_columns table_id columns (add_column ids tenant_id connection_id table_id c s)
          (IsFresh-add_column table_id c s f h) (λ j le. h j (omega arith)) in
      (g, omega arith)

  pub IsFresh-cache_table :
      (schema_id : ℕ) (t : DiscoveredTable) (s : Caching)
      → IsFresh ids s.store s.drawn
      → ((j : ℕ) → s.drawn ≤ j → schema_id ≢ ids j)
      → let s' = cache_table ids tenant_id connection_id schema_id t s in
        IsFresh ids s'.store s'.drawn × (s.drawn ≤ s'.drawn)
  unfolding cache_table
  IsFresh-cache_table schema_id t s f h =
      let (g, le) =
        IsFresh-cache_columns (ids s.drawn) t.columns
          (add_table ids tenant_id connection_id schema_id t s)
          (IsFresh-add_table schema_id t s f h) (drawn_before s.drawn) in
      (g, omega arith)

  pub IsFresh-cache_tables :
      (schema_id : ℕ) (tables : List DiscoveredTable) (s : Caching)
      → IsFresh ids s.store s.drawn
      → ((j : ℕ) → s.drawn ≤ j → schema_id ≢ ids j)
      → let s' = cache_tables ids tenant_id connection_id schema_id tables s in
        IsFresh ids s'.store s'.drawn
  unfolding cache_tables
  IsFresh-cache_tables schema_id [] s f h = f
  IsFresh-cache_tables schema_id (t ∷ tables) s f h =
      let (g, le) = IsFresh-cache_table schema_id t s f h in
      IsFresh-cache_tables schema_id tables (cache_table ids tenant_id connection_id schema_id t s)
        g (λ j k. h j (omega arith))

  pub IsFresh-cache_schema :
      (d : DiscoveredSchema) (s : Caching)
      → IsFresh ids s.store s.drawn
      → let s' = cache_schema ids tenant_id connection_id d s in IsFresh ids s'.store s'.drawn
  unfolding cache_schema
  IsFresh-cache_schema d s f =
      IsFresh-cache_tables (ids s.drawn) d.tables (add_schema ids tenant_id connection_id d s)
        (IsFresh-add_schema d s f) (drawn_before s.drawn)
