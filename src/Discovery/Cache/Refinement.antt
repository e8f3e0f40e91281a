-- ===== src/Discovery/Cache/Refinement.antt =====
-- From the rows of the source database to the cache and back.
use multi_tenant_data_chat_p.Shared.{
  ℕ, ◌+◌, ◌≡◌, refl, sym, ap, subst, ◌∙◌, inl, inr, Bool, true, false, List, [], ◌∷◌, ◌++◌, map,
  length, In, here, there, In-append, In-map, ◌==◌, ==_iff, if◌then◌else◌, arith,
}
use multi_tenant_data_chat_p.Shared.Text.{Text, text_eq}
use multi_tenant_data_chat_p.Models.{Store}
use multi_tenant_data_chat_p.Discovery.{
  TableRow, SourceRows, DiscoveredColumn, DiscoveredTable, DiscoveredSchema, count_tables,
  count_table_columns, count_columns, build_discovery_result,
}
use multi_tenant_data_chat_p.Discovery.Meaning.{select, table_of, schema_of}
use multi_tenant_data_chat_p.Discovery.Reference.{schemas_lem}
use multi_tenant_data_chat_p.Discovery.Cache.{
  Caching, before_caching, add_column, add_table, add_schema, cache_columns, cache_table,
  cache_tables, cache_schema, cache_schemas, cache_discovered_metadata,
}
use multi_tenant_data_chat_p.Discovery.Cache.View.{cached_view}
use multi_tenant_data_chat_p.Discovery.Cache.Fresh.{IsFresh}
use multi_tenant_data_chat_p.Discovery.Cache.Loops.{IsNamed, cached_view-cache_schemas}
use multi_tenant_data_chat_p.Discovery.Cache.Clearing.{IsFresh-clear, cached_view-clear}

module _ (ids : ℕ → ℕ) (tenant_id connection_id : ℕ) where
  counts-cache_columns :
      (table_id : ℕ) (columns : List DiscoveredColumn) (s : Caching)
      → let s' = cache_columns ids tenant_id connection_id table_id columns s in
        (s'.cached_schema_count ≡ s.cached_schema_count)
        × (s'.cached_table_count ≡ s.cached_table_count)
        × (s'.cached_column_count ≡ s.cached_column_count + length columns)
  unfolding cache_columns add_column
  counts-cache_columns table_id [] s = (refl, refl, omega arith)
  counts-cache_columns table_id (c ∷ columns) s =
      let (a, b, d) =
        counts-cache_columns table_id columns
          (add_column ids tenant_id connection_id table_id c s) in
      (a, b, omega arith)

  counts-cache_tables :
      (schema_id : ℕ) (tables : List DiscoveredTable) (s : Caching)
      → let s' = cache_tables ids tenant_id connection_id schema_id tables s in
        (s'.cached_schema_count ≡ s.cached_schema_count)
        × (s'.cached_table_count ≡ s.cached_table_count + length tables)
        × (s'.cached_column_count ≡ s.cached_column_count + count_table_columns tables)
  unfolding cache_tables cache_table add_table count_table_columns
  counts-cache_tables schema_id [] s = (refl, omega arith, omega arith)
  counts-cache_tables schema_id (t ∷ tables) s =
      let (a, b, d) =
        counts-cache_columns (ids s.drawn) t.columns
          (add_table ids tenant_id connection_id schema_id t s) in
      let (a', b', d') =
        counts-cache_tables schema_id tables
          (cache_table ids tenant_id connection_id schema_id t s) in
      (a' ∙ a, omega arith, omega arith)

  counts-cache_schemas :
      (schemas : List DiscoveredSchema) (s : Caching)
      → let s' = cache_schemas ids tenant_id connection_id schemas s in
        (s'.cached_schema_count ≡ s.cached_schema_count + length schemas)
        × (s'.cached_table_count ≡ s.cached_table_count + count_tables schemas)
        × (s'.cached_column_count ≡ s.cached_column_count + count_columns schemas)
  unfolding cache_schemas cache_schema add_schema count_tables count_columns
  counts-cache_schemas [] s = (omega arith, omega arith, omega arith)
  counts-cache_schemas (d ∷ schemas) s =
      let (a, b, e) =
        counts-cache_tables (ids s.drawn) d.tables (add_schema ids tenant_id connection_id d s) in
      let (a', b', e') =
        counts-cache_schemas schemas (cache_schema ids tenant_id connection_id d s) in
      (omega arith, omega arith, omega arith)

In-select :
    {A B : Type 0} (p : A → Bool) (f : A → B) (xs : List A) (b : B)
    → In b (select p f xs)
    → (a : A) × (p a ≡ true) × (b ≡ f a)
In-select {A} p f [] b i = elim i [ ]
In-select {A} p f (x ∷ xs) b i = elim (In-append (if p x then f x ∷ [] else []) (select p f xs) i) [
  | inl j ↦ first (p x) refl j
  | inr j ↦ In-select p f xs b j
]
  where
    first :
        (t : Bool)
        → p x ≡ t
        → In b (if t then f x ∷ [] else [])
        → (a : A) × (p a ≡ true) × (b ≡ f a)
    first true e (here q) = (x, e, q)
    first true e (there j) = elim j [ ]
    first false e j = elim j [ ]

IsNamed-schema_of : (rows : SourceRows) (name : Text) → IsNamed (schema_of rows name)
unfolding schema_of table_of
IsNamed-schema_of rows name t i =
    let (r, e, q) =
      In-select (λ (t : TableRow). name == t.table_schema) (table_of rows) rows.table_rows t i in
    ap (λ (t : DiscoveredTable). t.schema_name) q ∙ sym ((==_iff name r.table_schema).0 e)

counted :
    (rows : SourceRows)
    → let d = build_discovery_result rows in
      (d.schema_count ≡ length d.schemas)
      × (d.table_count ≡ count_tables d.schemas)
      × (d.column_count ≡ count_columns d.schemas)
unfolding build_discovery_result
counted rows = (refl, refl, refl)

module _ (ids : ℕ → ℕ) (distinct : (i j : ℕ) → ids i ≡ ids j → i ≡ j)
    (tenant_id connection_id : ℕ) where
  -- Whatever the database held, if the UUIDs still to be drawn are distinct and no row bears one:
  -- after the rows of a source database were discovered and cached, the cached metadata of the
  -- connection, read back, are exactly the schemas, tables and columns that selections from those
  -- rows give, in their order, and the three counts that the call returns are those of the
  -- discovery.
  pub cached_view-cache_discovered_metadata :
      (rows : SourceRows) (st : Store) (drawn : ℕ)
      → IsFresh ids st drawn
      → let discovery = build_discovery_result rows in
        let cached = cache_discovered_metadata ids tenant_id connection_id discovery st drawn in
        (cached_view tenant_id connection_id cached.store ≡ map (schema_of rows) rows.schema_rows)
        × (cached.cached_schema_count ≡ discovery.schema_count)
        × (cached.cached_table_count ≡ discovery.table_count)
        × (cached.cached_column_count ≡ discovery.column_count)
  unfolding cache_discovered_metadata before_caching
  cached_view-cache_discovered_metadata rows st drawn f =
      let discovery = build_discovery_result rows in
      let start = before_caching ids tenant_id connection_id st drawn in
      let (a, b, c) = counts-cache_schemas ids tenant_id connection_id discovery.schemas start in
      let (a', b', c') = counted rows in
      (
        cached_view-cache_schemas ids distinct tenant_id connection_id discovery.schemas start
              (IsFresh-clear tenant_id connection_id ids st drawn f) (named discovery.schemas refl)
            ∙ ap (λ l. l ++ discovery.schemas) (cached_view-clear tenant_id connection_id st)
            ∙ schemas_lem rows,
        omega arith,
        omega arith,
        omega arith,
      )
    where
      named :
          (schemas : List DiscoveredSchema)
          → (build_discovery_result rows).schemas ≡ schemas
          → (d : DiscoveredSchema) → In d schemas
          → IsNamed d
      named schemas e d i =
          let (name, j, q) =
            In-map (schema_of rows) rows.schema_rows d
              (subst (In d) (sym e ∙ schemas_lem rows) i) in
          subst IsNamed (sym q) (IsNamed-schema_of rows name)
